-- ===== src/Api/Router/Replies.antt =====
-- What holds of the answer to every request.
use auth_imp.Base.{String, ◌≡◌, ◌<◌, ◌⊎◌, inl, inr, refl, Bool-cases, Option-cases, arith}
use auth_imp.Auth.{Service, Jwt}
use auth_imp.DirectoryService.Refusals.{
  create_org-IsQuiet, add_org_member-IsQuiet, remove_org_member-IsQuiet, create_group-IsQuiet,
  add_group_member-IsQuiet, remove_group_member-IsQuiet,
}
use auth_imp.DirectoryService.Edits.{
  update_org-IsQuiet, delete_org-IsQuiet, update_group-IsQuiet, delete_group-IsQuiet,
}
use auth_imp.Uds.Handlers.{Services}
use auth_imp.Api.Http.{json, crash, Binder, Context, Env, Handled}
use auth_imp.Api.Users
use auth_imp.Api.Orgs
use auth_imp.Api.Groups
use auth_imp.Api.Middleware.{Passed-cases, jwt_middleware}
use auth_imp.Api.Router.{
  HandlerFunc, Route, Request, Response, written, unrouted, Tree, patterns, route_at, context,
  recovered, routes, past, run, serve,
}
use auth_imp.Api.Router.Routes.{EachRoute, none_left, ◌⊗◌, route_at-EachRoute}
use auth_imp.Api.Router.Settled.{
  SameServices, SameServices-refl, IsSettled, Exception, binding-IsSettled,
  with_directory-IsSettled, create_user_lem, update_user_lem, delete_user_lem, logout_lem,
  online_lem, create_sync_job_lem, login_lem,
}

-- The response reports no error, or the services are the same, or `X` is the reason.
abbrev pub IsHarmless : {Token : Type 0} → Type 0 → Services → Response Token × Services → Type 0
IsHarmless X s (written code _, t) = (code < 400) ⊎ (SameServices s t ⊎ X)
IsHarmless X s (unrouted, t) = t ≡ s

recovered-IsHarmless :
    {Token : Type 0} (X : Type 0) (s : Services) (r : Handled Token)
    → IsSettled X s r
    → IsHarmless X s (recovered r)
unfolding recovered
recovered-IsHarmless X s (json code body, t) h = h
recovered-IsHarmless X s (crash, t) (inl h) = absurd h
recovered-IsHarmless X s (crash, t) (inr h) = inr h

module _ {Raw : Type 0} (jwt : Jwt) (read_token : String → jwt.Token) (auth : Service)
    (binder : Binder Raw) (env : Env) where
  open jwt use {Token}

  abbrev RouteHolds : Route Raw Token → Type 0
  RouteHolds r =
      (c : Context Raw) (s : Services)
      → IsSettled (Exception jwt auth binder env c.body) s (r.handler c s)

  abbrev Holds : HandlerFunc Raw Token → Type 0
  Holds h =
      (c : Context Raw) (s : Services) → IsSettled (Exception jwt auth binder env c.body) s (h c s)

  create_org_lem : Holds (Orgs.create_org binder env)
  unfolding Orgs.create_org
  create_org_lem c s = binding-IsSettled _ s _ _ (λ req _.
      with_directory-IsSettled _ s _ _ (λ _. omega arith) _
        (create_org-IsQuiet s.directory _ _ req))

  update_org_lem : Holds (Orgs.update_org binder env)
  unfolding Orgs.update_org
  update_org_lem c s = binding-IsSettled _ s _ _ (λ req _.
      with_directory-IsSettled _ s _ _ (λ _. omega arith) _
        (update_org-IsQuiet s.directory _ _ req))

  delete_org_lem : Holds (Orgs.delete_org binder env)
  unfolding Orgs.delete_org
  delete_org_lem c s =
      with_directory-IsSettled _ s _ _ (λ _. omega arith) _ (delete_org-IsQuiet s.directory _)

  add_org_member_lem : Holds (Orgs.add_org_member binder env)
  unfolding Orgs.add_org_member
  add_org_member_lem c s = binding-IsSettled _ s _ _ (λ req _.
      with_directory-IsSettled _ s _ _ (λ _. omega arith) _
        (add_org_member-IsQuiet s.directory _ req))

  remove_org_member_lem : Holds (Orgs.remove_org_member binder env)
  unfolding Orgs.remove_org_member
  remove_org_member_lem c s =
      with_directory-IsSettled _ s _ _ (λ _. omega arith) _
        (remove_org_member-IsQuiet s.directory _ _)

  create_group_lem : Holds (Groups.create_group binder env)
  unfolding Groups.create_group
  create_group_lem c s = binding-IsSettled _ s _ _ (λ req _.
      with_directory-IsSettled _ s _ _ (λ _. omega arith) _
        (create_group-IsQuiet s.directory _ _ req))

  update_group_lem : Holds (Groups.update_group binder env)
  unfolding Groups.update_group
  update_group_lem c s = binding-IsSettled _ s _ _ (λ req _.
      with_directory-IsSettled _ s _ _ (λ _. omega arith) _
        (update_group-IsQuiet s.directory _ _ req))

  delete_group_lem : Holds (Groups.delete_group binder env)
  unfolding Groups.delete_group
  delete_group_lem c s =
      with_directory-IsSettled _ s _ _ (λ _. omega arith) _ (delete_group-IsQuiet s.directory _)

  add_group_member_lem : Holds (Groups.add_group_member binder env)
  unfolding Groups.add_group_member
  add_group_member_lem c s = binding-IsSettled _ s _ _ (λ req _.
      with_directory-IsSettled _ s _ _ (λ _. omega arith) _
        (add_group_member-IsQuiet s.directory _ _ req))

  remove_group_member_lem : Holds (Groups.remove_group_member binder env)
  unfolding Groups.remove_group_member
  remove_group_member_lem c s =
      with_directory-IsSettled _ s _ _ (λ _. omega arith) _
        (remove_group_member-IsQuiet s.directory _ _)

  routes-all : EachRoute RouteHolds (routes jwt read_token auth binder env)
  unfolding routes Users.list_users Users.get_online_count Users.get_user Users.get_sync_job
      Orgs.get_user_orgs Groups.get_user_groups Orgs.list_orgs Orgs.get_org Orgs.list_org_children
      Orgs.list_org_members Groups.list_groups Groups.get_group Groups.list_group_members
  routes-all =
      let same : (c : Context Raw) (s : Services)
          → SameServices s s ⊎ Exception jwt auth binder env c.body =
        λ c s. inl (SameServices-refl s) in
      (λ c s. inr (same c s))
      ⊗ (λ c s. login_lem jwt auth binder env c s)
      ⊗ (λ c s. logout_lem jwt auth binder env c s)
      ⊗ (λ c s. online_lem jwt auth binder env c s)
      ⊗ (λ c s. create_user_lem jwt auth binder env c s)
      ⊗ (λ c s. inr (same c s))
      ⊗ (λ c s. inr (same c s))
      ⊗ (λ c s. inr (same c s))
      ⊗ (λ c s. update_user_lem jwt auth binder env c s)
      ⊗ (λ c s. delete_user_lem jwt auth binder env c s)
      ⊗ (λ c s. inr (same c s))
      ⊗ (λ c s. inr (same c s))
      ⊗ create_org_lem
      ⊗ (λ c s. inr (same c s))
      ⊗ (λ c s. inr (same c s))
      ⊗ update_org_lem
      ⊗ delete_org_lem
      ⊗ (λ c s. inr (same c s))
      ⊗ add_org_member_lem
      ⊗ (λ c s. inr (same c s))
      ⊗ remove_org_member_lem
      ⊗ create_group_lem
      ⊗ (λ c s. inr (same c s))
      ⊗ (λ c s. inr (same c s))
      ⊗ update_group_lem
      ⊗ delete_group_lem
      ⊗ add_group_member_lem
      ⊗ (λ c s. inr (same c s))
      ⊗ remove_group_member_lem
      ⊗ (λ c s. create_sync_job_lem jwt auth binder env c s)
      ⊗ (λ c s. inr (same c s))
      ⊗ (λ c s. inr (same c s))
      ⊗ (λ c s. create_user_lem jwt auth binder env c s)
      ⊗ (λ c s. inr (same c s))
      ⊗ (λ c s. update_user_lem jwt auth binder env c s)
      ⊗ (λ c s. delete_user_lem jwt auth binder env c s)
      ⊗ none_left

  run-IsSettled :
      (route : Route Raw Token) (request : Request Raw) (param : String → String) (s : Services)
      → Holds route.handler
      → IsSettled
          (Exception jwt auth binder env request.body)
          s
          (run jwt read_token auth binder env route request param s)
  unfolding run past
  run-IsSettled route request param s h = elim (Bool-cases route.guarded) [
    | inr free ↦ rw (free, run) (h (context request param "") s)
    | inl guarded ↦
        elim (Passed-cases
          (jwt_middleware jwt read_token auth env.call.now request.authorization)) [
            | inl (claims, e) ↦
                rw (guarded, run, e, past) (h (context request param claims.user_id) s)
            | inr (a, e) ↦ rw (guarded, run, e, past) (inr (inl (SameServices-refl s)))
          ]
  ]

  -- Whatever the request and the tree of the routes: where no route is found, nothing changes; where
  -- the status of the response is 400 or more, the one of a panic included, no table and no lookup
  -- of a user has changed, unless the body is an update of a user to the status of a deleted one,
  -- or some user's token cannot be generated.
  pub serve-IsHarmless :
      (tree : Tree) (request : Request Raw) (s : Services)
      → IsHarmless
          (Exception jwt auth binder env request.body)
          s
          (serve jwt read_token auth binder env tree request s)
  unfolding serve
  serve-IsHarmless tree request s =
      let rs = routes jwt read_token auth binder env in
      elim (Option-cases (tree (patterns request.method rs) request.path)) [
        | inl e ↦ rw (e, serve) refl
        | inr ((pattern, param), e) ↦ elim (Option-cases (route_at request.method pattern rs)) [
          | inl f ↦ rw (e, serve, f) refl
          | inr (route, f) ↦
              rw (e, serve, f)
                (recovered-IsHarmless _ s (run jwt read_token auth binder env route request param s)
                  (run-IsSettled route request param s
                    (route_at-EachRoute request.method pattern rs routes-all route f)))
        ]
      ]
