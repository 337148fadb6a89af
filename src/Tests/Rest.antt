-- ===== src/Tests/Rest.antt =====
-- The REST API (internal/api) at one user, and runs of the whole service (cmd/main.go).
use Prim.Native.String.{◌++◌}
use auth_imp.Base.{
  String, ◌≡◌, ◌≢◌, ◌⊎◌, refl, arith, true, none, some, [], ◌∷◌, ◌==◌, if◌then◌else◌, eq_iff, sym,
  ap, ◌∙◌, false,
}
use auth_imp.Errors.{ok}
use auth_imp.Dict
use auth_imp.Model.{User, LoginRequest, LoginResponse}
use auth_imp.Base.Int.{pos, ltb_ℤ}
use auth_imp.Auth.{Claims, claims_of, generate_token, unix, verify_password}
use auth_imp.UserStore
use auth_imp.UserStore.{MemoryStore}
use auth_imp.UserService
use auth_imp.SyncJobStore
use auth_imp.Uds.Handlers.{Services}
use auth_imp.Api.Http.{
  Answer, json, Bound, bound, unbound, Binder, Context, Env, Handled, binding, with_users,
  answer_with,
}
use auth_imp.Api.Http
use auth_imp.Api.Users
use auth_imp.Api.Middleware.{allowed, denied, jwt_middleware, bearer, behind_prefix}
use auth_imp.Api.Router.{Request, Tree, routes, in_group, patterns, serve, written}
use auth_imp.Api.Router.Settled.{Exception}
use auth_imp.Api.Router.Replies.{IsHarmless, serve-IsHarmless}
use auth_imp.Api.Router.Guarded.{IsOpen, IsTurnedAway, serve-IsTurnedAway}
use auth_imp.Api.Session.{jwt_middleware-login}
use auth_imp.Api.Session.Logout.{logged_in_services, serve-login}
use auth_imp.UserStore.Reads.{IsLive}
use auth_imp.UserService.Sessions.{marked}
use auth_imp.Tests.Tokens.{plain_jwt, plain_jwt-IsJwt, service}
use auth_imp.Tests.Users.{one_user, one_user-IsUserStore, stored_alice}
use auth_imp.Tests.Services.{directory}

-- A body is a username and a password.
abbrev pub Raw : Type 0
Raw = String × String

abbrev pub binder : Binder Raw
binder = record {
  create_user = λ _. unbound "";
  update_user = λ _. unbound "";
  login = λ (name, password). bound (record { username = name; password = password });
  create_sync_job = λ _. unbound "";
  create_org = λ _. unbound "";
  update_org = λ _. unbound "";
  add_org_member = λ _. unbound "";
  create_group = λ _. unbound "";
  update_group = λ _. unbound "";
  add_group_member = λ _. unbound "";
}

abbrev pub env : Env
env = record {
  call = record { now = 5_000_000_000; id = "n1"; org_order = λ xs. xs; group_order = λ xs. xs };
  user_order = λ us. us;
  lower = λ t. t;
}

abbrev pub token : String × Claims
token = ("secret", claims_of plain_jwt service 5_000_000_000 "u1" "alice")

abbrev pub read_token : String → String × Claims
read_token _ = token

-- A path matches itself.
unfoldable pub exact : Tree
exact [] path = none
exact (p ∷ ps) path = let later = exact ps path in if p == path then some (p, λ _. "") else later

abbrev pub services : Services
services = record { directory = directory; sync_jobs = SyncJobStore.new }

abbrev anonymous : Request Raw
anonymous = record {
  method = "DELETE";
  path = "/api/v1/orgs/o1";
  authorization = "";
  query = λ _. none;
  body = ("", "");
}

abbrev missing : Answer (String × Claims)
missing = json 401 (Http.Body.error "missing authorization token")

turned_away : jwt_middleware plain_jwt read_token service 5_000_000_000 "" ≡ denied missing
unfolding jwt_middleware bearer behind_prefix
turned_away = refl

serve-IsTurnedAway_example :
    IsTurnedAway plain_jwt read_token service binder env anonymous services
      (serve plain_jwt read_token service binder env exact anonymous services)
    ⊎ ((pattern : String) × (param : String → String) × (exact
            (patterns "DELETE" (routes plain_jwt read_token service binder env))
            "/api/v1/orgs/o1"
          ≡ some (pattern, param))
        × IsOpen "DELETE" pattern)
serve-IsTurnedAway_example =
    serve-IsTurnedAway plain_jwt read_token service binder env anonymous missing exact services
      turned_away

serve-IsHarmless_example :
    IsHarmless
      (Exception plain_jwt service binder env ("", ""))
      services
      (serve plain_jwt read_token service binder env exact anonymous services)
serve-IsHarmless_example =
    serve-IsHarmless plain_jwt read_token service binder env exact anonymous services

abbrev login_context : Context Raw
login_context = record {
  param = λ _. "";
  query = λ _. none;
  body = ("alice", "wonderland");
  user_id = "";
}

abbrev login_response : LoginResponse (String × Claims)
login_response = record {
  token = token;
  expires = pos 3_605;
  user = record stored_alice { is_online = true };
}

logged_in :
    (Users.login plain_jwt service binder env login_context services).0
    ≡ json 200 (Http.Body.login login_response)
unfolding Users.login binding with_users answer_with UserService.login
    UserService.verify_credentials verify_password generate_token UserStore.get_by_username
    UserStore.get_by_id UserStore.create UserStore.load_or_store UserStore.stamp_new
    UserStore.update UserStore.update_existing UserStore.overlay Dict.get Dict.put Dict.empty
logged_in = refl

some_text : ◌≢◌ {A = String} "t" ""
some_text = ground (arith, eq_iff "t" "")

in_time : ltb_ℤ (unix (pos 6_000_000_000)) (pos 3_605) ≡ true
in_time = refl

jwt_middleware-login_example :
    (req : LoginRequest) × (u : User) × (binder.login ("alice", "wonderland") ≡ bound req)
    × (UserService.verify_credentials req.username req.password one_user ≡ ok u)
    × (jwt_middleware plain_jwt read_token service 6_000_000_000 ("Bearer " ++ "t")
        ≡ allowed (claims_of plain_jwt service 5_000_000_000 u.id u.username))
jwt_middleware-login_example =
    jwt_middleware-login plain_jwt plain_jwt-IsJwt read_token service binder env login_context
      services login_response "t" 6_000_000_000 some_text refl logged_in in_time

abbrev later : Env
later = record env {
  call = record { now = 6_000_000_000; id = "n2"; org_order = λ xs. xs; group_order = λ xs. xs };
}

abbrev logout_request : Request Raw
logout_request = record {
  method = "POST";
  path = "/api/v1/auth/logout";
  authorization = "Bearer t";
  query = λ _. none;
  body = ("", "");
}

abbrev no_params : String → String
no_params _ = ""

found :
    exact (patterns "POST" (routes plain_jwt read_token service binder later)) "/api/v1/auth/logout"
    ≡ some ("/api/v1/auth/logout", no_params)
unfolding exact patterns routes in_group
found = refl

nobody : Dict.get one_user.users "" ≡ none
unfolding UserStore.create UserStore.load_or_store UserStore.stamp_new Dict.get Dict.put Dict.empty
nobody = refl

named : (u : User) → IsLive one_user u → u.id ≢ ""
named u alive p =
    absurd (ground (arith, sym nobody ∙ ap (Dict.get one_user.users) (sym p) ∙ alive.0))

serve-login_example :
    (req : LoginRequest) × (u : User) × (binder.login ("alice", "wonderland") ≡ bound req)
    × (UserService.verify_credentials req.username req.password one_user ≡ ok u)
    × ((serve plain_jwt read_token service binder later exact logout_request
          (logged_in_services plain_jwt service binder env login_context services)).0
        ≡ written 200 (Http.Body.message "logged out successfully"))
    × (UserStore.get_by_id u.id
          (serve plain_jwt read_token service binder later exact logout_request (
            logged_in_services plain_jwt service binder env login_context
              services)).1.directory.user_store
        ≡ ok (marked 6_000_000_000 false u))
serve-login_example =
    serve-login plain_jwt plain_jwt-IsJwt read_token service binder env later login_context services
      exact logout_request one_user-IsUserStore named login_response "t" no_params some_text refl
      logged_in in_time refl refl found
