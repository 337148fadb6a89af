-- ===== src/Api/Session.antt =====
-- A session over the REST API: a login, and what its token opens.
pub mod Logout
use Prim.Native.String.{◌++◌}
use text.Mathlib.TextLemmas.{nil-append, cons-append}
use auth_imp.Base.{true, ℕ, String, ◌≡◌, ◌≢◌, ◌<◌, inl, inr, refl, arith, lt→ltb, ne→test, ◌∙◌}
use auth_imp.Base.Int.{ℤ, pos, ltb_ℤ}
use auth_imp.Errors.{Result-cases, ok, err, panic, Result}
use auth_imp.Model.{Time, User, LoginRequest, LoginResponse}
use auth_imp.Auth.{Service, Jwt, claims_of, generate_token, validate_token, unix}
use auth_imp.Auth.Tokens.{IsJwt, validate-generate}
use auth_imp.UserService
use auth_imp.UserService.{login_response}
use auth_imp.Uds.Handlers.{Services}
use auth_imp.Api.Http.{
  Body, Answer, Bound-cases, json, Binder, Context, Env, bound, binding, answer_with, with_users,
}
use auth_imp.Api.Middleware.{allowed, behind_prefix, bearer, jwt_middleware}
use auth_imp.Api.Users
use auth_imp.Errors

behind_prefix-append : (whole p s : String) → s ≢ "" → behind_prefix whole p (p ++ s) ≡ s
unfolding behind_prefix
behind_prefix-append whole String.[] String.[] given = absurd (given refl)
behind_prefix-append whole String.[] (String.◌∷◌ c s) given = rw (nil-append (String.◌∷◌ c s)) refl
behind_prefix-append whole (String.◌∷◌ c p) s given =
    rw (cons-append c p s) (ground (arith, behind_prefix-append whole p s given))

pub bearer_token : (text : String) → text ≢ "" → bearer ("Bearer " ++ text) ≡ text
unfolding bearer
bearer_token text given = behind_prefix-append ("Bearer " ++ text) "Bearer " text given

-- The answer of the handler for a result, and the result for the answer.
module _ {Token : Type 0} where
  abbrev login_answer : Result (LoginResponse Token) → Answer Token
  login_answer = answer_with (λ e. Users.fail 401 (Errors.message e)) (λ r. json 200 (Body.login r))

  login_answered :
      (x : Result (LoginResponse Token)) (r : LoginResponse Token)
      → login_answer x ≡ json 200 (Body.login r)
      → x ≡ ok r
  unfolding answer_with
  login_answered (ok q) r e = ground (arith, e)
  login_answered (err x) r e = absurd (ground (arith, e))
  login_answered panic r e = absurd (ground (arith, e))

login_signed :
    (jwt : Jwt) (u : User) (g : Result (jwt.Token × ℤ)) (r : LoginResponse jwt.Token)
    → login_response jwt u g ≡ ok r
    → g ≡ ok (r.token, r.expires)
login_signed jwt u (ok (token, expires)) r e = ground (arith, e)
login_signed jwt u (err x) r e = absurd (ground (arith, e))
login_signed jwt u panic r e = absurd (ground (arith, e))

module _ {Raw : Type 0} (jwt : Jwt) (law : IsJwt jwt) (read_token : String → jwt.Token)
    (auth : Service) (binder : Binder Raw) (env : Env) (c : Context Raw) (s : Services) where
  passes_token :
      (text : String) (token : jwt.Token) (expires : ℤ) (later : Time) (u : User)
      → text ≢ ""
      → read_token text ≡ token
      → generate_token jwt auth env.call.now u.id u.username ≡ ok (token, expires)
      → ltb_ℤ (unix (pos later)) expires ≡ true
      → jwt_middleware jwt read_token auth later ("Bearer " ++ text)
        ≡ allowed (claims_of jwt auth env.call.now u.id u.username)
  unfolding jwt_middleware
  passes_token text token expires later u given reads made early =
      let claims = claims_of jwt auth env.call.now u.id u.username in
      let valid =
        (validate-generate jwt law auth env.call.now later u.id u.username token expires made).1 in
      let validates : validate_token jwt auth later token ≡ ok claims = valid ∙ rw early refl in
      rw (bearer_token text given, ne→test given, reads, validates) refl

  -- Over a JWT library with the named behaviour: when the login handler answers 200, the body of the
  -- request gives the credentials of a user, and until the second of the expiry in the response, a
  -- request with `Bearer` and any text that is not empty and reads as its token passes the middleware
  -- as that user.
  pub jwt_middleware-login :
      (r : LoginResponse jwt.Token) (text : String) (later : Time)
      → text ≢ ""
      → read_token text ≡ r.token
      → (Users.login jwt auth binder env c s).0 ≡ json 200 (Body.login r)
      → ltb_ℤ (unix (pos later)) r.expires ≡ true
      → (req : LoginRequest) × (u : User) × (binder.login c.body ≡ bound req)
        × (UserService.verify_credentials req.username req.password s.directory.user_store ≡ ok u)
        × (jwt_middleware jwt read_token auth later ("Bearer " ++ text)
            ≡ allowed (claims_of jwt auth env.call.now u.id u.username))
  unfolding Users.login binding with_users answer_with UserService.login
  jwt_middleware-login r text later given reads e early = elim (Bound-cases (binder.login c.body)) [
    | inr (_, f) ↦ absurd (ground (arith, e, f))
    | inl (req, f) ↦
        let check =
          UserService.verify_credentials req.username req.password s.directory.user_store in
        elim (Result-cases check) [
          | inr (inl (_, g)) ↦ absurd (
              ground (arith, (rw (f, Users.login, binding, g, UserService.login, with_users) at e)))
          | inr (inr g) ↦ absurd (
              ground (arith, (rw (f, Users.login, binding, g, UserService.login, with_users) at e)))
          | inl (u, g) ↦
              let signed = generate_token jwt auth env.call.now u.id u.username in
              let answered : login_answer (login_response jwt u signed) ≡ json 200 (Body.login r) =
                (rw (f, Users.login, binding, g, UserService.login, with_users) at e) in
              let made : signed ≡ ok (r.token, r.expires) =
                login_signed jwt u signed r (login_answered _ r answered) in
              (req, u, f, g, passes_token text r.token r.expires later u given reads made early)
        ]
  ]
