-- ===== src/Api/Session/Logout.antt =====
-- A session from its login to its logout.
use Prim.Native.String.{◌++◌}
use auth_imp.Base.{ℕ, String, ◌≡◌, ◌≢◌, refl, ap, ◌∙◌, some, true, false, arith, ne→test, eq_refl}
use auth_imp.Errors.{ok}
use auth_imp.Dict
use auth_imp.Model.{User, LoginRequest, LoginResponse}
use auth_imp.Base.Int.{pos, ltb_ℤ}
use auth_imp.Auth.{Service, Jwt, unix}
use auth_imp.Auth.Tokens.{IsJwt}
use auth_imp.UserStore.{MemoryStore, live, get_by_id}
use auth_imp.UserStore.Invariant.{IsUserStore}
use auth_imp.UserStore.Reads.{IsLive, get_by_id_of_live}
use auth_imp.UserService
use auth_imp.UserService.Sessions.{marked, set_online_effect, logout_effect}
use auth_imp.UserService.Credentials.{verify_credentials_iff}
use auth_imp.Uds.Handlers.{Services}
use auth_imp.Api.Http.{
  Body, crash, json, bound, Binder, Context, Env, Handled, binding, answer_with, with_users,
}
use auth_imp.Api.Users
use auth_imp.Api.Middleware.{jwt_middleware}
use auth_imp.Api.Router.{
  Request, written, Tree, patterns, route_at, in_group, context, recovered, routes, past, run,
  serve,
}
use auth_imp.Api.Session.{jwt_middleware-login}

recovered-json :
    {Token : Type 0} (p : Handled Token) (code : ℕ) (body : Body Token)
    → p.0 ≡ json code body
    → recovered p ≡ (written code body, p.1)
unfolding recovered
recovered-json (json n b, t) code body e = ground (arith, e)
recovered-json (crash, t) code body e = absurd (ground (arith, e))

-- The handler's answer to a user that is online.
module _ {Raw : Type 0} (jwt : Jwt) (auth : Service) (binder : Binder Raw) (env : Env)
    (c : Context Raw) (s : Services) (u : User) where
  logout_answer :
      c.user_id ≡ u.id
      → u.id ≢ ""
      → live (Dict.get s.directory.user_store.users u.id) ≡ some u
      → ((Users.logout jwt auth binder env c s).0
          ≡ json 200 (Body.message "logged out successfully"))
        × (get_by_id u.id (Users.logout jwt auth binder env c s).1.directory.user_store
            ≡ ok (marked env.call.now false u))
  unfolding Users.logout Users.signed_in with_users answer_with
  logout_answer same named alive =
      let (done, at) = logout_effect env.call.now u.id s.directory.user_store u alive in
      let t = (UserService.logout env.call.now u.id s.directory.user_store).1 in
      let found : get_by_id u.id t ≡ ok (marked env.call.now false u) =
        ground (arith, get_by_id_of_live u.id t, at u.id, eq_refl u.id, alive) in
      (
        rw (Users.logout, Users.signed_in, same, ne→test named, done) refl,
        rw (Users.logout, Users.signed_in, same, ne→test named) found,
      )

module _ {Raw : Type 0} (jwt : Jwt) (read_token : String → jwt.Token) (auth : Service)
    (binder : Binder Raw) (later : Env) (tree : Tree) (request : Request Raw) where
  logout_route :
      (param : String → String) (t : Services)
      → request.method ≡ "POST"
      → tree (patterns request.method (routes jwt read_token auth binder later)) request.path
        ≡ some ("/api/v1/auth/logout", param)
      → serve jwt read_token auth binder later tree request t
        ≡ recovered (
            past jwt read_token auth binder later
              (Users.logout jwt auth binder later)
              request
              param
              t
              (jwt_middleware jwt read_token auth later.call.now request.authorization))
  unfolding serve routes in_group route_at run
  logout_route param t post found = rw (serve, found, post) refl

-- What a login leaves.
abbrev pub logged_in_services :
    {Raw : Type 0} (jwt : Jwt) → Service → Binder Raw → Env → Context Raw → Services → Services
logged_in_services jwt auth binder env c s = (Users.login jwt auth binder env c s).1

module _ {Raw : Type 0} (jwt : Jwt) (law : IsJwt jwt) (read_token : String → jwt.Token)
    (auth : Service) (binder : Binder Raw) (env later : Env) (c : Context Raw) (s : Services)
    (tree : Tree) (request : Request Raw) where
  -- The user of the credentials is then online.
  login_stored :
      (req : LoginRequest) (u : User)
      → binder.login c.body ≡ bound req
      → UserService.verify_credentials req.username req.password s.directory.user_store ≡ ok u
      → IsLive s.directory.user_store u
      → live (Dict.get (logged_in_services jwt auth binder env c s).directory.user_store.users u.id)
        ≡ some (marked env.call.now true u)
  unfolding Users.login binding with_users UserService.login UserService.set_online
  login_stored req u f verified alive =
      let now = env.call.now in
      let before = s.directory.user_store in
      let there : live (Dict.get before.users u.id) ≡ some u = ground (arith, alive) in
      let at = (set_online_effect now u.id before true u there).1 u.id in
      let stores : (Users.login jwt auth binder env c s).1.directory.user_store
          ≡ (UserService.set_online now u.id true before).1 =
        rw (Users.login, f, binding, with_users, UserService.login, verified) refl in
      ap (λ (m : MemoryStore). live (Dict.get m.users u.id)) stores
      ∙ ground (arith, at, eq_refl u.id, alive)

  -- Over a JWT library with the named behaviour, and users with the user store's invariant, none of
  -- which has the empty id: when the login handler answers 200, then until the second of the expiry in
  -- the response, the next request, a POST that the tree of the routes takes to the logout, with
  -- `Bearer` and a text that reads as the token, is answered with 200, and the user of the credentials
  -- is then stored as it was before the login, but for the time and without the online mark.
  pub serve-login :
      IsUserStore s.directory.user_store
      → ((u : User) → IsLive s.directory.user_store u → u.id ≢ "")
      → (r : LoginResponse jwt.Token) (text : String) (param : String → String) → text ≢ ""
      → read_token text ≡ r.token
      → (Users.login jwt auth binder env c s).0 ≡ json 200 (Body.login r)
      → ltb_ℤ (unix (pos later.call.now)) r.expires ≡ true
      → request.method ≡ "POST"
      → request.authorization ≡ "Bearer " ++ text
      → tree (patterns request.method (routes jwt read_token auth binder later)) request.path
        ≡ some ("/api/v1/auth/logout", param)
      → (req : LoginRequest) × (u : User) × (binder.login c.body ≡ bound req)
        × (UserService.verify_credentials req.username req.password s.directory.user_store ≡ ok u)
        × ((serve jwt read_token auth binder later tree request
              (logged_in_services jwt auth binder env c s)).0
            ≡ written 200 (Body.message "logged out successfully"))
        × (get_by_id u.id
              (serve jwt read_token auth binder later tree request
                (logged_in_services jwt auth binder env c s)).1.directory.user_store
            ≡ ok (marked later.call.now false u))
  unfolding past
  serve-login h named r text param given reads e early post header found =
      let (req, u, f, verified, passes) =
        jwt_middleware-login jwt law read_token auth binder env c s r text later.call.now given
          reads e early in
      let alive =
        ((verify_credentials_iff s.directory.user_store h req.username req.password u).0
          verified).0 in
      let p =
        Users.logout jwt auth binder later (context request param u.id)
          (logged_in_services jwt auth binder env c s) in
      let (answered, left) =
        logout_answer jwt auth binder later (context request param u.id)
          (logged_in_services jwt auth binder env c s) (marked env.call.now true u) refl
          (named u alive) (login_stored req u f verified alive) in
      let served : serve jwt read_token auth binder later tree request
            (logged_in_services jwt auth binder env c s)
          ≡ (written 200 (Body.message "logged out successfully"), p.1) =
        logout_route jwt read_token auth binder later tree request param
          (logged_in_services jwt auth binder env c s) post found
        ∙ rw (header, passes, past)
            (recovered-json p 200 (Body.message "logged out successfully") answered) in
      (req, u, f, verified, ap (λ q. q.0) served, rw served left)
