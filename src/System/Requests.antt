-- ===== src/System/Requests.antt =====
-- What a request over HTTP does to the directory.
use auth_imp.Base.{String, inl, inr, refl, Bool-cases, Option-cases}
use auth_imp.Auth.{Service, Jwt}
use auth_imp.Uds.Handlers.{Services}
use auth_imp.Api.Http.{json, crash, Binder, Context, Env, Handled}
use auth_imp.Api.Users
use auth_imp.Api.Orgs
use auth_imp.Api.Groups
use auth_imp.Api.Middleware.{Passed-cases, jwt_middleware}
use auth_imp.Api.Router.{
  Route, Request, Tree, patterns, route_at, context, recovered, routes, past, run, serve,
}
use auth_imp.Api.Router.Routes.{EachRoute, none_left, ◌⊗◌, route_at-EachRoute}
use auth_imp.System.Moves.{Moves}
use auth_imp.System.Handlers
use auth_imp.System.Handlers.{Moved, IsFresh}

recovered-Moved :
    {Token : Type 0} (s : Services) (r : Handled Token)
    → Moved s r
    → Moves s.directory (recovered r).1.directory
unfolding recovered
recovered-Moved s (json code body, t) h = h
recovered-Moved s (crash, t) h = h

module _ {Raw : Type 0} (jwt : Jwt) (read_token : String → jwt.Token) (auth : Service)
    (binder : Binder Raw) (env : Env) where
  open jwt use {Token}

  abbrev RouteHolds : Route Raw Token → Type 0
  RouteHolds r = (c : Context Raw) (s : Services) → IsFresh env.call.id s → Moved s (r.handler c s)

  routes-move : EachRoute RouteHolds (routes jwt read_token auth binder env)
  unfolding routes Users.list_users Users.get_online_count Users.get_user Users.get_sync_job
      Orgs.get_user_orgs Groups.get_user_groups Orgs.list_orgs Orgs.get_org Orgs.list_org_children
      Orgs.list_org_members Groups.list_groups Groups.get_group Groups.list_group_members
  routes-move =
      (λ c s fresh. inl refl)
      ⊗ Handlers.login_lem jwt auth binder env
      ⊗ Handlers.logout_lem jwt auth binder env
      ⊗ Handlers.online_lem jwt auth binder env
      ⊗ Handlers.create_user_lem jwt auth binder env
      ⊗ (λ c s fresh. inl refl)
      ⊗ (λ c s fresh. inl refl)
      ⊗ (λ c s fresh. inl refl)
      ⊗ Handlers.update_user_lem jwt auth binder env
      ⊗ Handlers.delete_user_lem jwt auth binder env
      ⊗ (λ c s fresh. inl refl)
      ⊗ (λ c s fresh. inl refl)
      ⊗ Handlers.create_org_lem jwt auth binder env
      ⊗ (λ c s fresh. inl refl)
      ⊗ (λ c s fresh. inl refl)
      ⊗ Handlers.update_org_lem jwt auth binder env
      ⊗ Handlers.delete_org_lem jwt auth binder env
      ⊗ (λ c s fresh. inl refl)
      ⊗ Handlers.add_org_member_lem jwt auth binder env
      ⊗ (λ c s fresh. inl refl)
      ⊗ Handlers.remove_org_member_lem jwt auth binder env
      ⊗ Handlers.create_group_lem jwt auth binder env
      ⊗ (λ c s fresh. inl refl)
      ⊗ (λ c s fresh. inl refl)
      ⊗ Handlers.update_group_lem jwt auth binder env
      ⊗ Handlers.delete_group_lem jwt auth binder env
      ⊗ Handlers.add_group_member_lem jwt auth binder env
      ⊗ (λ c s fresh. inl refl)
      ⊗ Handlers.remove_group_member_lem jwt auth binder env
      ⊗ Handlers.create_sync_job_lem jwt auth binder env
      ⊗ (λ c s fresh. inl refl)
      ⊗ (λ c s fresh. inl refl)
      ⊗ Handlers.create_user_lem jwt auth binder env
      ⊗ (λ c s fresh. inl refl)
      ⊗ Handlers.update_user_lem jwt auth binder env
      ⊗ Handlers.delete_user_lem jwt auth binder env
      ⊗ none_left

  run-Moved :
      (route : Route Raw Token) (request : Request Raw) (param : String → String) (s : Services)
      → RouteHolds route
      → IsFresh env.call.id s
      → Moved s (run jwt read_token auth binder env route request param s)
  unfolding run past
  run-Moved route request param s h fresh = elim (Bool-cases route.guarded) [
    | inr free ↦ rw (free, run) (h (context request param "") s fresh)
    | inl guarded ↦
        elim (Passed-cases
          (jwt_middleware jwt read_token auth env.call.now request.authorization)) [
            | inl (claims, e) ↦
                rw (guarded, run, e, past) (h (context request param claims.user_id) s fresh)
            | inr (a, e) ↦ rw (guarded, run, e, past) (inl refl)
          ]
  ]

  -- A request over HTTP, with a new id, leaves the directory as it was or takes one step of it.
  pub serve-Moves :
      (tree : Tree) (request : Request Raw) (s : Services)
      → IsFresh env.call.id s
      → Moves s.directory (serve jwt read_token auth binder env tree request s).1.directory
  unfolding serve
  serve-Moves tree request s fresh =
      let rs = routes jwt read_token auth binder env in
      elim (Option-cases (tree (patterns request.method rs) request.path)) [
        | inl e ↦ rw (e, serve) (inl refl)
        | inr ((pattern, param), e) ↦ elim (Option-cases (route_at request.method pattern rs)) [
          | inl f ↦ rw (e, serve, f) (inl refl)
          | inr (route, f) ↦
              rw (e, serve, f)
                (recovered-Moved s (run jwt read_token auth binder env route request param s) (
                  run-Moved route request param s
                    (route_at-EachRoute request.method pattern rs routes-move route f) fresh))
        ]
      ]
