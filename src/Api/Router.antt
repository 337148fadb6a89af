-- ===== src/Api/Router.antt =====
-- `SetupRouter` of internal/api/router.go, and a request on its way through the router. The tree in
-- which gin looks a path up is a parameter. The profiling endpoints, which are registered only where
-- `ENABLE_PPROF` is set, are left out.
pub mod Routes
pub mod Tree
pub mod Settled
pub mod Replies
pub mod Guarded
use Prim.Native.String.{◌++◌}
use auth_imp.Base.{
  ℕ, String, Bool, true, false, Option, none, some, List, [], ◌∷◌, ◌==◌, ◌&&◌, if◌then◌else◌,
}
use auth_imp.Auth.{Service, Jwt}
use auth_imp.Uds.Handlers.{Services}
use auth_imp.Api.Http.{Body, no_body, Answer, json, crash, Binder, Context, Env, Handled}
use auth_imp.Api.Users
use auth_imp.Api.Orgs
use auth_imp.Api.Groups
use auth_imp.Api.Middleware.{Passed, allowed, denied, jwt_middleware}

-- `gin.HandlerFunc`
abbrev pub HandlerFunc : Type 0 → Type 0 → Type 0
HandlerFunc Raw Token = Context Raw → Services → Handled Token

-- A registered route; it is guarded where `JWTMiddleware` stands before its handler.
pub record Route (Raw Token : Type 0) : Type 0 where
  pub method : String
  pub pattern : String
  pub guarded : Bool
  pub handler : HandlerFunc Raw Token

pub record Request (Raw : Type 0) : Type 0 where
  pub method : String
  pub path : String
  pub authorization : String
  pub query : String → Option String
  pub body : Raw

-- What is written to the client. Where no route is found, gin writes an answer of its own.
pub data Response (Token : Type 0) : Type 0 where
  written : ℕ → Body Token → Response Token
  unrouted : Response Token

-- gin's tree of a method: from its patterns, the one that a path matches, and the parameters in it.
abbrev pub Tree : Type 0
Tree = List String → String → Option (String × (String → String))

module _ {Raw Token : Type 0} where
  -- The routes of a group, with the path in front of theirs, before the other routes.
  unfoldable pub in_group :
      String
      → Bool
      → List (String × (String × HandlerFunc Raw Token))
      → List (Route Raw Token)
      → List (Route Raw Token)
  in_group prefix guarded [] others = others
  in_group prefix guarded ((method, (path, handler)) ∷ rs) others =
      record { method = method; pattern = prefix ++ path; guarded = guarded; handler = handler }
      ∷ in_group prefix guarded rs others

  -- The patterns that are registered under a method.
  unfoldable pub patterns : String → List (Route Raw Token) → List String
  patterns method [] = []
  patterns method (r ∷ rs) =
      let others = patterns method rs in if r.method == method then r.pattern ∷ others else others

  unfoldable pub route_at : String → String → List (Route Raw Token) → Option (Route Raw Token)
  route_at method pattern [] = none
  route_at method pattern (r ∷ rs) =
      let later = route_at method pattern rs in
      if r.method == method && r.pattern == pattern then some r else later

-- The handlers' context: the parameters of the path, and the user that the middleware has set.
abbrev pub context : {Raw : Type 0} → Request Raw → (String → String) → String → Context Raw
context request param user_id = record {
  param = param;
  query = request.query;
  body = request.body;
  user_id = user_id;
}

-- `gin.Recovery()`: a panic becomes the status 500.
unfoldable pub recovered : {Token : Type 0} → Handled Token → Response Token × Services
recovered (json code body, s) = (written code body, s)
recovered (crash, s) = (written 500 no_body, s)

module _ {Raw : Type 0} (jwt : Jwt) (read_token : String → jwt.Token) (auth : Service)
    (binder : Binder Raw) (env : Env) where
  open jwt use {Token}

  abbrev health : HandlerFunc Raw Token
  health c s = (json 200 (Body.status "ok"), s)

  -- `SetupRouter`
  unfoldable pub routes : List (Route Raw Token)
  unfolding in_group
  routes = in_group "" false (("GET", ("/health", health)) ∷ []) (
      in_group "/api/v1/auth" false (("POST", ("/login", Users.login jwt auth binder env)) ∷ []) (
        in_group "/api/v1/auth" true
          (("POST", ("/logout", Users.logout jwt auth binder env))
            ∷ ("POST", ("/online", Users.online jwt auth binder env))
            ∷ [])
          (in_group "/api/v1/users" true
            (("POST", ("", Users.create_user jwt auth binder env))
              ∷ ("GET", ("", Users.list_users jwt auth binder env))
              ∷ ("GET", ("/online/count", Users.get_online_count jwt auth binder env))
              ∷ ("GET", ("/:id", Users.get_user jwt auth binder env))
              ∷ ("PUT", ("/:id", Users.update_user jwt auth binder env))
              ∷ ("DELETE", ("/:id", Users.delete_user jwt auth binder env))
              ∷ ("GET", ("/:id/orgs", Orgs.get_user_orgs binder env))
              ∷ ("GET", ("/:id/groups", Groups.get_user_groups binder env))
              ∷ [])
            (in_group "/api/v1/orgs" true
              (("POST", ("", Orgs.create_org binder env))
                ∷ ("GET", ("", Orgs.list_orgs binder env))
                ∷ ("GET", ("/:id", Orgs.get_org binder env))
                ∷ ("PUT", ("/:id", Orgs.update_org binder env))
                ∷ ("DELETE", ("/:id", Orgs.delete_org binder env))
                ∷ ("GET", ("/:id/children", Orgs.list_org_children binder env))
                ∷ ("POST", ("/:id/members", Orgs.add_org_member binder env))
                ∷ ("GET", ("/:id/members", Orgs.list_org_members binder env))
                ∷ ("DELETE", ("/:id/members/:userId", Orgs.remove_org_member binder env))
                ∷ [])
              (in_group "/api/v1/groups" true
                (("POST", ("", Groups.create_group binder env))
                  ∷ ("GET", ("", Groups.list_groups binder env))
                  ∷ ("GET", ("/:id", Groups.get_group binder env))
                  ∷ ("PUT", ("/:id", Groups.update_group binder env))
                  ∷ ("DELETE", ("/:id", Groups.delete_group binder env))
                  ∷ ("POST", ("/:id/members", Groups.add_group_member binder env))
                  ∷ ("GET", ("/:id/members", Groups.list_group_members binder env))
                  ∷ ("DELETE", ("/:id/members/:userId", Groups.remove_group_member binder env))
                  ∷ [])
                (in_group "/api/v1/sync" true
                  (("POST", ("/jobs", Users.create_sync_job jwt auth binder env))
                    ∷ ("GET", ("/jobs/:id", Users.get_sync_job jwt auth binder env))
                    ∷ [])
                  (in_group "/scim/v2" true
                    (("GET", ("/Users", Users.list_users jwt auth binder env))
                      ∷ ("POST", ("/Users", Users.create_user jwt auth binder env))
                      ∷ ("GET", ("/Users/:id", Users.get_user jwt auth binder env))
                      ∷ ("PUT", ("/Users/:id", Users.update_user jwt auth binder env))
                      ∷ ("DELETE", ("/Users/:id", Users.delete_user jwt auth binder env))
                      ∷ [])
                    [])))))))

  -- A request that the middleware lets through comes with the user of its token.
  unfoldable pub past :
      HandlerFunc Raw Token
      → Request Raw
      → (String → String)
      → Services
      → Passed Token
      → Handled Token
  past handler request param s (allowed claims) = handler (context request param claims.user_id) s
  past handler request param s (denied a) = (a, s)

  unfoldable pub run : Route Raw Token → Request Raw → (String → String) → Services → Handled Token
  unfolding past
  run route request param s =
      if route.guarded
      then past route.handler request param s
          (jwt_middleware jwt read_token auth env.call.now request.authorization)
      else route.handler (context request param "") s

  unfoldable pub serve : Tree → Request Raw → Services → Response Token × Services
  unfolding routes route_at patterns recovered run
  serve tree request s = elim (tree (patterns request.method routes) request.path) [
    | none ↦ (unrouted, s)
    | some (pattern, param) ↦ elim (route_at request.method pattern routes) [
      | none ↦ (unrouted, s)
      | some route ↦ recovered (run route request param s)
    ]
  ]
