-- ===== src/Tests/Tokens.antt =====
-- Tokens (internal/auth/service.go) over a library whose tokens are the key and the claims.
use auth_imp.Base.{String, ◌≡◌, ap, sym, ◌∙◌, Bool, true, if◌then◌else◌, ◌==◌, refl, eq_refl}
use auth_imp.Base.Int.{ℤ, pos, ltb_ℤ}
use auth_imp.Errors.{Error, Result, ok, err, panic}
use auth_imp.Model.{LoginResponse}
use auth_imp.Auth.{
  verify_password, Claims, Service, Jwt, claims_of, generate_token, validate_token, unix, after,
}
use auth_imp.Auth.Tokens.{IsJwt, validate-generate}
use auth_imp.Dict
use auth_imp.UserStore
use auth_imp.UserService
use auth_imp.Tests.Users.{stored_alice, one_user}

-- The claims under a key are valid until their expiry.
abbrev parsed : Result String → ℤ → String × Claims → Result (Claims × Bool)
parsed (ok expected) second (key, claims) =
    if expected == key
    then if ltb_ℤ second claims.expires_at
      then ok (claims, true)
      else err (Error.token_error "token is expired")
    else err (Error.token_error "signature is invalid")
parsed (err e) second token = err e
parsed panic second token = panic

abbrev pub plain_jwt : Jwt
plain_jwt = record {
  Token = String × Claims;
  signed_string = λ key claims. ok (key, claims);
  parse_with_claims = λ keys now token. parsed (keys true) (unix (pos now)) token;
  expired_text = "token is expired";
}

-- What a signed token parses to.
abbrev parsed_signed : Result String → ℤ → Result (String × Claims) → Result (Claims × Bool)
parsed_signed keys second (ok token) = parsed keys second token
parsed_signed keys second (err e) = err e
parsed_signed keys second panic = panic

parsed_own :
    (key : String) (keys : Result String) (claims : Claims) (token : String × Claims) (second : ℤ)
    → Path (Result (String × Claims)) (ok (key, claims)) (ok token)
    → keys ≡ ok key
    → parsed keys second token ≡ (
        if ltb_ℤ second claims.expires_at
        then ok (claims, true)
        else err (Error.token_error "token is expired"))
parsed_own key keys claims token second signed has_key =
    ap (parsed_signed keys second) (sym signed)
    ∙ ap (λ k. parsed k second (key, claims)) has_key
    ∙ rw (eq_refl key)

pub plain_jwt-IsJwt : IsJwt plain_jwt
plain_jwt-IsJwt = record {
  parses = λ key keys claims token now signed has_key early.
      parsed_own key (keys true) claims token (unix (pos now)) signed has_key ∙ rw early refl;
  expires = λ key keys claims token now signed has_key late.
      parsed_own key (keys true) claims token (unix (pos now)) signed has_key ∙ rw late refl;
}

abbrev pub service : Service
service = record {
  jwt_secret = "secret";
  token_expiry = pos 3_600_000_000_000;
  bcrypt_cost = pos 12;
}

abbrev token : String × Claims
token = ("secret", claims_of plain_jwt service 5_000_000_000 "u1" "alice")

generated : generate_token plain_jwt service 5_000_000_000 "u1" "alice" ≡ ok (token, pos 3_605)
unfolding generate_token
generated = refl

validate-generate_example :
    (pos 3_605 ≡ unix (after 5_000_000_000 service.token_expiry))
    × (validate_token plain_jwt service 6_000_000_000 token ≡ (
        if ltb_ℤ (unix (pos 6_000_000_000)) (pos 3_605)
        then ok (claims_of plain_jwt service 5_000_000_000 "u1" "alice")
        else err (Error.token_error "token is expired")))
validate-generate_example =
    validate-generate plain_jwt plain_jwt-IsJwt service 5_000_000_000 6_000_000_000 "u1" "alice"
      token (pos 3_605) generated

abbrev answer : LoginResponse (String × Claims)
answer = record {
  token = token;
  expires = pos 3_605;
  user = record stored_alice { is_online = true };
}

logged_in :
    (UserService.login plain_jwt service 5_000_000_000 "alice" "wonderland" one_user).0 ≡ ok answer
unfolding UserService.login UserService.verify_credentials verify_password generate_token
    UserStore.get_by_username UserStore.get_by_id UserStore.update UserStore.update_existing
    UserStore.overlay UserStore.create UserStore.load_or_store UserStore.stamp_new Dict.get Dict.put
    Dict.empty
logged_in = refl

abbrev after_login : UserStore.MemoryStore
after_login = (UserService.login plain_jwt service 5_000_000_000 "alice" "wonderland" one_user).1
