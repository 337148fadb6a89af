-- ===== src/Auth/Tokens.antt =====
-- Tokens and passwords of the authentication service.
use auth_imp.Base.{
  subst, false, String, ◌≡◌, ◌↔◌, Bool, true, arith, eq_iff, refl, Bool-cases, inl, inr,
  if◌then◌else◌,
}
use auth_imp.Base.Int.{ℤ, pos, ltb_ℤ}
use auth_imp.Errors.{Error, Result, ok, err}
use auth_imp.Model.{Time}
use auth_imp.Auth.{
  Claims, Service, Jwt, generate_token, validate_token, claims_of, key_for, hash_password,
  verify_password, unix, after,
}

-- What the library's documentation says: a token that was signed with HS256 and a key parses, with
-- the same key for HMAC methods, to its claims while it has not expired, and is refused from the
-- second of its expiry on.
pub record IsJwt (jwt : Jwt) : Type 0 where
  pub parses :
      (key : String) (keys : Bool → Result String) (claims : Claims) (token : jwt.Token)
      (now : Time)
      → jwt.signed_string key claims ≡ ok token
      → keys true ≡ ok key
      → ltb_ℤ (unix (pos now)) claims.expires_at ≡ true
      → jwt.parse_with_claims keys now token ≡ ok (claims, true)
  pub expires :
      (key : String) (keys : Bool → Result String) (claims : Claims) (token : jwt.Token)
      (now : Time)
      → jwt.signed_string key claims ≡ ok token
      → keys true ≡ ok key
      → ltb_ℤ (unix (pos now)) claims.expires_at ≡ false
      → jwt.parse_with_claims keys now token ≡ err (Error.token_error jwt.expired_text)

module _ (jwt : Jwt) (law : IsJwt jwt) (s : Service) (now later : Time)
    (user_id username : String) where
  -- Over a JWT library with the named behaviour, a token that was generated comes with the second
  -- in which its life ends as its expiry; it validates to the claims for its id and name in every
  -- second before it, and is refused as expired from then on.
  pub validate-generate :
      (token : jwt.Token) (expires : ℤ)
      → generate_token jwt s now user_id username ≡ ok (token, expires)
      → (expires ≡ unix (after now s.token_expiry))
        × (validate_token jwt s later token ≡ (
            if ltb_ℤ (unix (pos later)) expires
            then ok (claims_of jwt s now user_id username)
            else err (Error.token_error jwt.expired_text)))
  unfolding generate_token validate_token
  validate-generate token expires e =
      let claims = claims_of jwt s now user_id username in
      let signed : jwt.signed_string s.jwt_secret claims ≡ ok token = ground arith in
      let same : expires ≡ unix (after now s.token_expiry) = ground arith in
      (
        same,
        elim (Bool-cases (ltb_ℤ (unix (pos later)) expires)) [
          | inl before ↦
              let inside : ltb_ℤ (unix (pos later)) claims.expires_at ≡ true =
                subst (λ x. ltb_ℤ (unix (pos later)) x ≡ true) same before in
              ground (
                arith,
                before,
                law.parses s.jwt_secret (key_for jwt s) claims token later signed refl inside,
              )
          | inr after_it ↦
              let outside : ltb_ℤ (unix (pos later)) claims.expires_at ≡ false =
                subst (λ x. ltb_ℤ (unix (pos later)) x ≡ false) same after_it in
              ground (
                arith,
                after_it,
                law.expires s.jwt_secret (key_for jwt s) claims token later signed refl outside,
              )
        ],
      )

-- A password that is accepted verifies against what was stored for it, and no other password does.
pub verify_password-hash_password :
    (password hash other : String)
    → hash_password password ≡ ok hash
    → (verify_password hash other ≡ true) ↔ (other ≡ password)
unfolding hash_password verify_password
verify_password-hash_password password hash other e =
    (λ t. ground (arith, e, t, eq_iff hash other), λ t. ground (arith, e, t, eq_iff hash other))
