-- ===== src/Udp/Form.antt =====
-- What internal/udp/server.go takes from the packages strings and net/url, on bytes.
use Prim.Native.Char.{code}
use Prim.Native.String.{String}
use auth_imp.Base.{
  ℕ, ◌+◌, ◌-◌, ◌*◌, Bool, true, false, List, [], ◌∷◌, Option, none, some, eqb, leb, ◌&&◌,
  if◌then◌else◌, any,
}
use auth_imp.Uds.Codec.{Byte}

-- The bytes of an ASCII text.
unfoldable pub bytes : String → List Byte
bytes String.[] = []
bytes (String.◌∷◌ c s) = code c ∷ bytes s

unfoldable pub same_bytes : List Byte → List Byte → Bool
same_bytes [] [] = true
same_bytes [] ys = false
same_bytes xs [] = false
same_bytes (x ∷ xs) (y ∷ ys) = eqb x y && same_bytes xs ys

-- What follows the prefix, where the bytes begin with it.
unfoldable pub strip : List Byte → List Byte → Option (List Byte)
strip [] s = some s
strip (p ∷ ps) [] = none
strip (p ∷ ps) (c ∷ s) = let rest = strip ps s in if eqb p c then rest else none

-- The second part of `strings.SplitN(s, sep, 2)`: what follows the first `sep`, where there is one.
unfoldable pub split_n : List Byte → List Byte → Option (List Byte)
unfolding strip
split_n sep [] = strip sep []
split_n sep (c ∷ s) =
    let later = split_n sep s in elim (strip sep (c ∷ s)) [ some rest ↦ some rest | none ↦ later ]

-- `strings.Cut` at a byte: what stands before the first one and behind it.
unfoldable pub cut : Byte → List Byte → List Byte × List Byte
cut sep [] = ([], [])
cut sep (c ∷ s) =
    let (before, after) = cut sep s in if eqb c sep then ([], s) else (c ∷ before, after)

-- A byte before the first part.
abbrev pub in_front : Byte → List (List Byte) → List (List Byte)
in_front c [] = (c ∷ []) ∷ []
in_front c (p ∷ ps) = (c ∷ p) ∷ ps

-- All parts between the separators, as `Cut` after `Cut` gives them.
unfoldable pub parts : Byte → List Byte → List (List Byte)
parts sep [] = [] ∷ []
parts sep (c ∷ s) = let rest = parts sep s in if eqb c sep then [] ∷ rest else in_front c rest

-- `unhex` of a byte for which `ishex` holds.
unfoldable pub unhex : Byte → Option ℕ
unhex c =
    if leb b'0' c && leb c b'9'
    then some (c - b'0')
    else if leb b'a' c && leb c b'f'
    then some (c - b'a' + 10)
    else if leb b'A' c && leb c b'F'
    then some (c - b'A' + 10)
    else none

-- The byte that two digits behind a `%` stand for.
abbrev pub hex_pair : Option ℕ → Option ℕ → Option Byte
hex_pair (some a) (some b) = some (a * 16 + b)
hex_pair _ _ = none

-- A byte before what is decoded behind it.
abbrev pub before : Option Byte → Option (List Byte) → Option (List Byte)
before (some b) (some bs) = some (b ∷ bs)
before _ _ = none

-- Where `url.QueryUnescape` stands: between escapes, behind a `%`, or behind its first digit.
pub data Place : Type 0 where
  between behind_percent : Place
  behind_digit : Option ℕ → Place

abbrev pub next_place : Place → Byte → Place
next_place between c = if eqb c b'%' then behind_percent else between
next_place behind_percent c = behind_digit (unhex c)
next_place (behind_digit _) c = between

-- What the byte at a place gives, before the rest. A plus stands for a space.
abbrev pub decoded : Place → Byte → Option (List Byte) → Option (List Byte)
decoded between c rest =
    if eqb c b'%' then rest else before (some (if eqb c b'+' then b' ' else c)) rest
decoded behind_percent c rest = rest
decoded (behind_digit first) c rest = before (hex_pair first (unhex c)) rest

unfoldable pub unescape_from : Place → List Byte → Option (List Byte)
unfolding unhex
unescape_from between [] = some []
unescape_from behind_percent [] = none
unescape_from (behind_digit _) [] = none
unescape_from place (c ∷ s) =
    let rest = unescape_from (next_place place c) s in decoded place c rest

-- `url.QueryUnescape`
unfoldable pub unescape : List Byte → Option (List Byte)
unfolding unescape_from
unescape s = unescape_from between s

-- A part of the form: an error, nothing, or a key and a value.
pub data Part : Type 0 where
  bad blank : Part
  pair : List Byte → List Byte → Part

abbrev pub pair_of : Option (List Byte) → Option (List Byte) → Part
pair_of (some key) (some value) = pair key value
pair_of _ _ = bad

unfoldable pub read_part : List Byte → Part
unfolding unescape cut
read_part [] = blank
read_part part =
    let (key, value) = cut b'=' part in
    if any (λ c. eqb c b';') part then bad else pair_of (unescape key) (unescape value)

-- `url.ParseQuery`, where an error anywhere is an error: its pairs, in their order.
unfoldable pub read_parts : List (List Byte) → Option (List (List Byte × List Byte))
unfolding read_part
read_parts [] = some []
read_parts (p ∷ ps) = elim (read_part p) [
  | bad ↦ none
  | blank ↦ read_parts ps
  | pair key value ↦ elim (read_parts ps) [ some pairs ↦ some ((key, value) ∷ pairs) | none ↦ none ]
]

unfoldable pub parse_query : List Byte → Option (List (List Byte × List Byte))
unfolding parts read_parts
parse_query query = read_parts (parts b'&' query)

-- `Values.Get`: the first value of the key, or nothing.
unfoldable pub values_get : List (List Byte × List Byte) → List Byte → List Byte
unfolding same_bytes
values_get [] key = []
values_get ((k, v) ∷ vs) key =
    let later = values_get vs key in if same_bytes k key then v else later
