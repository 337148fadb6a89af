-- ===== src/Udp/Queries.antt =====
-- A login form that a client has encoded is read as it was meant.
use auth_imp.Base.{
  ℕ, ◌+◌, ◌*◌, ◌≡◌, refl, ap, ◌∙◌, Bool, true, false, List, [], ◌∷◌, ◌++◌, some, eqb, not, ◌&&◌,
  any, arith,
}
use auth_imp.Uds.Codec.{Byte}
use auth_imp.Udp.{parse_auth_request}
use auth_imp.Udp.Form.{
  bytes, split_n, strip, cut, parts, parse_query, read_parts, read_part, unescape, unescape_from,
  pair, unhex, values_get, same_bytes,
}

-- A byte that stands for itself in a form.
abbrev pub is_plain : Byte → Bool
is_plain c =
    not (eqb c b'%')
    && (not (eqb c b'+') && (not (eqb c b'&') && (not (eqb c b';') && not (eqb c b'='))))

-- The first bytes encode the second ones for a form.
pub data Encodes : List Byte → List Byte → Type 0 where
  done : Encodes [] []
  itself : {s b : List Byte} (c : Byte) → is_plain c ≡ true → Encodes s b → Encodes (c ∷ s) (c ∷ b)
  space : {s b : List Byte} → Encodes s b → Encodes (b'+' ∷ s) (b' ' ∷ b)
  escape :
      {s b : List Byte} (x y : Byte) (m n : ℕ)
      → unhex x ≡ some m
      → unhex y ≡ some n
      → Encodes s b
      → Encodes (b'%' ∷ (x ∷ (y ∷ s))) ((m * 16 + n) ∷ b)

pub unescape-Encodes : {s b : List Byte} → Encodes s b → unescape s ≡ some b
unfolding unescape unescape_from
unescape-Encodes done = refl
unescape-Encodes (itself c plain e) = ground (arith, plain, unescape-Encodes e)
unescape-Encodes (space e) = ground (arith, unescape-Encodes e)
unescape-Encodes (escape x y m n first second e) = rw (first, second, unescape-Encodes e) refl

-- A byte is nowhere in a list.
abbrev IsFree : Byte → List Byte → Type 0
IsFree sep s = any (λ c. eqb c sep) s ≡ false

abbrev is_mark : Byte → Bool
is_mark c = not (not (eqb c b'&') && (not (eqb c b';') && not (eqb c b'=')))

digit_free : (x : Byte) (m : ℕ) → unhex x ≡ some m → is_mark x ≡ false
unfolding unhex
digit_free x m e = ground (arith, e)

Encodes-IsFree : {s b : List Byte} (sep : Byte) → is_mark sep ≡ true → Encodes s b → IsFree sep s
Encodes-IsFree sep marks done = refl
Encodes-IsFree sep marks (itself c plain e) =
    ground (arith, marks, plain, Encodes-IsFree sep marks e)
Encodes-IsFree sep marks (space e) = ground (arith, marks, Encodes-IsFree sep marks e)
Encodes-IsFree sep marks (escape x y m n first second e) =
    ground (arith, marks, digit_free x m first, digit_free y n second, Encodes-IsFree sep marks e)

any-append :
    (p : Byte → Bool) (s t : List Byte) → any p s ≡ false → any p t ≡ false → any p (s ++ t) ≡ false
any-append p [] t e f = f
any-append p (c ∷ s) t e f = ground (arith, e, any-append p s t (ground (arith, e)) f)

cut-append : (sep : Byte) (s t : List Byte) → IsFree sep s → cut sep (s ++ sep ∷ t) ≡ (s, t)
unfolding cut
cut-append sep [] t e = ground arith
cut-append sep (c ∷ s) t e = ground (arith, e, cut-append sep s t (ground (arith, e)))

parts-free : (sep : Byte) (s : List Byte) → IsFree sep s → parts sep s ≡ s ∷ []
unfolding parts
parts-free sep [] e = refl
parts-free sep (c ∷ s) e = ground (arith, e, parts-free sep s (ground (arith, e)))

parts-append :
    (sep : Byte) (s t : List Byte) → IsFree sep s → parts sep (s ++ sep ∷ t) ≡ s ∷ parts sep t
unfolding parts
parts-append sep [] t e = ground arith
parts-append sep (c ∷ s) t e = ground (arith, e, parts-append sep s t (ground (arith, e)))

-- The form is what follows the first ` -d `.
split_n-append :
    (front form : List Byte)
    → IsFree b' ' front
    → split_n (bytes " -d ") (front ++ (bytes " -d " ++ form)) ≡ some form
unfolding split_n strip bytes
split_n-append [] form e = refl
split_n-append (c ∷ front) form e = ground (arith, e, split_n-append front form (ground (arith, e)))

pub plain-Encodes : (s : List Byte) → any (λ c. not (is_plain c)) s ≡ false → Encodes s s
plain-Encodes [] e = done
plain-Encodes (c ∷ s) e = itself c (ground (arith, e)) (plain-Encodes s (ground (arith, e)))

-- `key=value`
abbrev pub field : List Byte → List Byte → List Byte
field key value = key ++ b'=' ∷ value

field-IsFree :
    {key e v : List Byte} {k : List Byte} (sep : Byte)
    → is_mark sep ≡ true
    → eqb b'=' sep ≡ false
    → Encodes key k
    → Encodes e v
    → IsFree sep (field key e)
field-IsFree {key} {e} sep marks other names values =
    any-append (λ c. eqb c sep) key (b'=' ∷ e) (Encodes-IsFree sep marks names)
      (ground (arith, other, Encodes-IsFree sep marks values))

read_part-field :
    {c : Byte} {key k e v : List Byte}
    → Encodes (c ∷ key) k
    → Encodes e v
    → read_part (field (c ∷ key) e) ≡ pair k v
unfolding read_part
read_part-field {c} {key} {k} {e} {v} names values =
    let split : cut b'=' (field (c ∷ key) e) ≡ (c ∷ key, e) =
      cut-append b'=' (c ∷ key) e (Encodes-IsFree b'=' refl names) in
    let clean : IsFree b';' (field (c ∷ key) e) = field-IsFree b';' refl refl names values in
    ground (arith, split, clean, unescape-Encodes names, unescape-Encodes values)

-- A packet with anything without a space, ` -d `, and a form with the encoded username and the
-- encoded password, in this order, gives them back, if neither is empty.
pub parse_auth_request-Encodes :
    (front : List Byte) {name password : List Byte} (n : Byte) (username : List Byte) (p : Byte)
    (secret : List Byte)
    → IsFree b' ' front
    → Encodes name (n ∷ username)
    → Encodes password (p ∷ secret)
    → parse_auth_request (
        front
        ++ (bytes " -d "
            ++ (field (bytes "username") name ++ b'&' ∷ field (bytes "pass_word") password)))
      ≡ some (n ∷ username, p ∷ secret)
unfolding parse_auth_request parse_query read_parts values_get same_bytes bytes
parse_auth_request-Encodes front {name} {password} n username p secret free names secrets =
    let user_key = plain-Encodes (bytes "username") refl in
    let secret_key = plain-Encodes (bytes "pass_word") refl in
    let first = field (bytes "username") name in
    let second = field (bytes "pass_word") password in
    let split = parts-append b'&' first second (field-IsFree b'&' refl refl user_key names) in
    let last = parts-free b'&' second (field-IsFree b'&' refl refl secret_key secrets) in
    let pairs = (bytes "username", n ∷ username) ∷ (bytes "pass_word", p ∷ secret) ∷ [] in
    let one : read_part first ≡ pair (bytes "username") (n ∷ username) =
      read_part-field user_key names in
    let two : read_part second ≡ pair (bytes "pass_word") (p ∷ secret) =
      read_part-field secret_key secrets in
    let read : parse_query (first ++ b'&' ∷ second) ≡ some pairs =
      ap read_parts (split ∙ ap (λ ps. first ∷ ps) last) ∙ rw (read_parts, one, two) refl in
    rw (parse_auth_request, split_n-append front (first ++ b'&' ∷ second) free, read) refl
