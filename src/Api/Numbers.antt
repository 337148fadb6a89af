-- ===== src/Api/Numbers.antt =====
-- `strconv.Atoi` on a 64-bit machine, as internal/api and cmd/main.go use it: the value that it
-- returns, which is the bound that was passed where the text is out of range, and whether it
-- returns an error.
use Prim.Native.Char.{code}
use Prim.Native.String.{String}
use auth_imp.Base.{
  ℕ, ◌+◌, ◌-◌, ◌*◌, ◌^◌, Bool, true, false, ltb, leb, eqb, ◌&&◌, if◌then◌else◌, arith,
}
use auth_imp.Base.Int.{ℤ, pos, negsuc, IsInt}

-- What `strconv.ParseUint` makes of a text with 64 bits.
pub data Parsed : Type 0 where
  number : ℕ → Parsed
  syntax_error range_error : Parsed

abbrev pub is_digit : ℕ → Bool
is_digit c = leb b'0' c && leb c b'9'

-- The loop of `ParseUint` at base ten, which stops at the first overflow.
unfoldable pub scan_digits : ℕ → String → Parsed
scan_digits n String.[] = number n
scan_digits n (String.◌∷◌ c s) =
    let m = n * 10 + (code c - b'0') in
    let rest = scan_digits m s in
    if is_digit (code c) then (if ltb m (2 ^ 64) then rest else range_error) else syntax_error

unfoldable pub parse_uint : String → Parsed
unfolding scan_digits
parse_uint String.[] = syntax_error
parse_uint s = scan_digits 0 s

-- `-n`
abbrev pub negated : ℕ → ℤ
negated n = if eqb n 0 then pos 0 else negsuc (n - 1)

-- The value, and whether there is an error.
abbrev pub positive : Parsed → ℤ × Bool
positive (number n) = if ltb n (2 ^ 63) then (pos n, false) else (pos (2 ^ 63 - 1), true)
positive syntax_error = (pos 0, true)
positive range_error = (pos (2 ^ 63 - 1), true)

abbrev pub negative : Parsed → ℤ × Bool
negative (number n) = if leb n (2 ^ 63) then (negated n, false) else (negsuc (2 ^ 63 - 1), true)
negative syntax_error = (pos 0, true)
negative range_error = (negsuc (2 ^ 63 - 1), true)

unfoldable pub atoi : String → ℤ × Bool
unfolding parse_uint
atoi String.[] = (pos 0, true)
atoi (String.◌∷◌ c s) =
    if eqb (code c) b'-'
    then negative (parse_uint s)
    else positive (if eqb (code c) b'+' then parse_uint s else parse_uint (String.◌∷◌ c s))

-- Whatever the text, the value is an `int`.
positive-IsInt : (p : Parsed) → IsInt (positive p).0
positive-IsInt (number n) = ground arith
positive-IsInt syntax_error = ground arith
positive-IsInt range_error = ground arith

negative-IsInt : (p : Parsed) → IsInt (negative p).0
negative-IsInt (number n) = ground arith
negative-IsInt syntax_error = ground arith
negative-IsInt range_error = ground arith

pub atoi-IsInt : (s : String) → IsInt (atoi s).0
unfolding atoi
atoi-IsInt String.[] = omega arith
atoi-IsInt (String.◌∷◌ c s) = ground (
  arith,
  negative-IsInt (parse_uint s),
  positive-IsInt (parse_uint s),
  positive-IsInt (parse_uint (String.◌∷◌ c s)),
)
