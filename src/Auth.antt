-- ===== src/Auth.antt =====
-- The authentication service (internal/auth/service.go). Signing and parsing a JWT is the work of
-- a library, which is the parameter `Jwt`, with what its documentation promises in `IsJwt`.
pub mod Tokens
use Prim.Native.String.{len}
use auth_imp.Base.{ℕ, ◌+◌, ◌*◌, ◌/◌, String, Bool, true, false, ltb, eqb, ◌==◌, if◌then◌else◌}
use auth_imp.Base.Int.{ℤ, pos, negsuc, is_zero, sub_ℕ, pos_part, neg_part}
use auth_imp.Errors.{Error, Result, ok, err, panic}
use auth_imp.Model.{Time}

-- A duration, in nanoseconds.
abbrev pub second : ℕ
second = 1_000_000_000

abbrev pub default_bcrypt_cost : ℤ
default_bcrypt_cost = pos 10

abbrev pub default_token_expiry : ℤ
default_token_expiry = pos (86_400 * second)

pub record Claims : Type 0 where
  pub user_id : String
  pub username : String
  pub expires_at : ℤ
  pub issued_at : ℤ
  pub subject : String

pub record Service : Type 0 where
  pub jwt_secret : String
  pub token_expiry : ℤ
  pub bcrypt_cost : ℤ

pub record Config : Type 0 where
  pub jwt_secret : String
  pub token_expiry : ℤ
  pub bcrypt_cost : ℤ

unfoldable pub new_service : Config → Service
new_service cfg = record {
  jwt_secret = cfg.jwt_secret;
  token_expiry = if is_zero cfg.token_expiry then default_token_expiry else cfg.token_expiry;
  bcrypt_cost = if is_zero cfg.bcrypt_cost then default_bcrypt_cost else cfg.bcrypt_cost;
}

-- The password itself is what is stored. `len` counts bytes.
unfoldable pub hash_password : String → Result String
hash_password password = if ltb (len password) 8 then err Error.password_too_short else ok password

unfoldable pub verify_password : String → String → Bool
verify_password hash password = hash == password

-- `now.Add(d)`, which a negative duration takes before the time from which times are counted.
abbrev pub after : Time → ℤ → ℤ
after now d = sub_ℕ (now + pos_part d) (neg_part d)

-- `jwt.NewNumericDate(t)` and `t.Unix()`: the second that holds the time, rounded down.
abbrev pub unix : ℤ → ℤ
unix (pos t) = pos (t / second)
unix (negsuc t) = negsuc (t / second)

-- The JWT library. A token is a text that only the library makes and reads.
pub record Jwt : Type 1 where
  pub Token : Type 0
  -- `token.SignedString(key)` of a token with HS256 and these claims
  pub signed_string : String → Claims → Result Token
  -- `jwt.ParseWithClaims` at a time, with the function that gives the key to the token's method,
  -- of which it is only asked whether it is an HMAC; the claims, and `token.Valid`
  pub parse_with_claims : (Bool → Result String) → Time → Token → Result (Claims × Bool)
  -- The text of the error for an expired token
  pub expired_text : String

module _ (jwt : Jwt) where
  open jwt use {Token, signed_string, parse_with_claims}

  abbrev pub claims_of : Service → Time → String → String → Claims
  claims_of s now user_id username = record {
    user_id = user_id;
    username = username;
    expires_at = unix (after now s.token_expiry);
    issued_at = unix (pos now);
    subject = user_id;
  }

  unfoldable pub generate_token : Service → Time → String → String → Result (Token × ℤ)
  generate_token s now user_id username =
      elim (signed_string s.jwt_secret (claims_of s now user_id username)) [
        | ok token ↦ ok (token, unix (after now s.token_expiry))
        | err e ↦ err e
        | panic ↦ panic
      ]

  -- The key function of `ValidateToken`.
  abbrev pub key_for : Service → Bool → Result String
  key_for s hmac =
      if hmac then ok s.jwt_secret else err (Error.token_error "unexpected signing method")

  unfoldable pub validate_token : Service → Time → Token → Result Claims
  validate_token s now token = elim (parse_with_claims (key_for s) now token) [
    | ok (claims, valid) ↦ if valid then ok claims else err (Error.token_error "invalid token")
    | err e ↦ err e
    | panic ↦ panic
  ]
