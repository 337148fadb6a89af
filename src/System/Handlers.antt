-- ===== src/System/Handlers.antt =====
-- What the handlers of internal/api do to the directory.
use auth_imp.Base.{String, ◌≡◌, ◌⊎◌, inl, inr, refl, none, true, Bool-cases, ◌==◌}
use auth_imp.Errors.{Error, Result}
use auth_imp.Dict
use auth_imp.Auth.{Service, Jwt}
use auth_imp.UserStore.{MemoryStore}
use auth_imp.UserStore.Invariant as UserRuns
use auth_imp.UserService
use auth_imp.DirectoryService.{DirectoryService}
use auth_imp.DirectoryService.Stores.{
  Step, create_org_step, update_org_step, delete_org_step, add_org_member_step,
  remove_org_member_step, create_group_step, update_group_step, delete_group_step,
  add_group_member_step, remove_group_member_step,
}
use auth_imp.Uds.Handlers.{Services}
use auth_imp.Api.Http.{
  Answer, Bound, bound, unbound, Binder, Context, Env, Handled, binding, with_users, with_jobs,
  with_directory,
}
use auth_imp.Api.Users
use auth_imp.Api.Orgs
use auth_imp.Api.Groups
use auth_imp.Api.Router.{HandlerFunc}
use auth_imp.System.Moves.{
  Moves, users-Moves, create_user-UserMoves, update_user-UserMoves, delete_user-UserMoves,
  set_online-UserMoves, logout-UserMoves, login-UserMoves,
}

-- What the handler leaves is the directory after a move.
abbrev pub Moved : {Token : Type 0} → Services → Handled Token → Type 0
Moved s (_, t) = Moves s.directory t.directory

module _ {Token : Type 0} (s : Services) where
  binding-Moved :
      {P : Type 0} (b : Bound P) (f : P → Handled Token)
      → ((p : P) → Moved s (f p))
      → Moved s (binding b s f)
  unfolding binding
  binding-Moved (bound p) f h = h p
  binding-Moved (unbound text) f h = inl refl

  module _ {A : Type 0} (failure : Error → Answer Token) (done : A → Answer Token) where
    with_users-Moved :
        (p : Result A × MemoryStore)
        → (p.1 ≡ s.directory.user_store) ⊎ UserRuns.Step s.directory.user_store p.1
        → Moved s (with_users failure done s p)
    unfolding with_users
    with_users-Moved (r, t) h = users-Moves s.directory t h

    with_directory-Moved :
        (p : Result A × DirectoryService)
        → Step s.directory p.1
        → Moved s (with_directory failure done s p)
    unfolding with_directory
    with_directory-Moved (r, t) h = inr h

-- Nothing is stored under the new id of the call.
abbrev pub IsFresh : String → Services → Type 0
IsFresh id s = Dict.get s.directory.user_store.users id ≡ none

module _ {Raw : Type 0} (jwt : Jwt) (auth : Service) (binder : Binder Raw) (env : Env) where
  open jwt use {Token}

  abbrev Holds : HandlerFunc Raw Token → Type 0
  Holds h = (c : Context Raw) (s : Services) → IsFresh env.call.id s → Moved s (h c s)

  pub create_user_lem : Holds (Users.create_user jwt auth binder env)
  unfolding Users.create_user
  create_user_lem c s fresh =
      binding-Moved s _ _ (λ req. with_users-Moved s _ _ _ (create_user-UserMoves _ _ _ req fresh))

  pub update_user_lem : Holds (Users.update_user jwt auth binder env)
  unfolding Users.update_user
  update_user_lem c s fresh =
      binding-Moved s _ _ (λ req. with_users-Moved s _ _ _ (update_user-UserMoves _ _ _ req))

  pub delete_user_lem : Holds (Users.delete_user jwt auth binder env)
  unfolding Users.delete_user
  delete_user_lem c s fresh = with_users-Moved s _ _ _ (delete_user-UserMoves _ _ _)

  pub login_lem : Holds (Users.login jwt auth binder env)
  unfolding Users.login
  login_lem c s fresh =
      binding-Moved s _ _ (λ req. with_users-Moved s _ _ _ (login-UserMoves jwt auth _ _ _ _))

  signed_in_lem :
      (c : Context Raw) (s : Services) (r : Handled Token)
      → Moved s r
      → Moved s (Users.signed_in jwt auth binder env c s r)
  unfolding Users.signed_in
  signed_in_lem c s r h = elim (Bool-cases (c.user_id == "")) [
    | inl e ↦ rw (e, Users.signed_in) (inl refl)
    | inr e ↦ rw (e, Users.signed_in) h
  ]

  pub logout_lem : Holds (Users.logout jwt auth binder env)
  unfolding Users.logout
  logout_lem c s fresh = signed_in_lem c s _ (with_users-Moved s _ _ _ (logout-UserMoves _ _ _))

  pub online_lem : Holds (Users.online jwt auth binder env)
  unfolding Users.online
  online_lem c s fresh =
      signed_in_lem c s _ (with_users-Moved s _ _ _ (set_online-UserMoves _ _ _ true))

  pub create_sync_job_lem : Holds (Users.create_sync_job jwt auth binder env)
  unfolding Users.create_sync_job with_jobs UserService.create_sync_job
  create_sync_job_lem c s fresh = binding-Moved s _ _ (λ req. inl refl)

  pub create_org_lem : Holds (Orgs.create_org binder env)
  unfolding Orgs.create_org
  create_org_lem c s fresh =
      binding-Moved s _ _
        (λ req. with_directory-Moved s _ _ _ (create_org_step _ _ req s.directory))

  pub update_org_lem : Holds (Orgs.update_org binder env)
  unfolding Orgs.update_org
  update_org_lem c s fresh =
      binding-Moved s _ _
        (λ req. with_directory-Moved s _ _ _ (update_org_step _ _ req s.directory))

  pub delete_org_lem : Holds (Orgs.delete_org binder env)
  unfolding Orgs.delete_org
  delete_org_lem c s fresh = with_directory-Moved s _ _ _ (delete_org_step _ s.directory)

  pub add_org_member_lem : Holds (Orgs.add_org_member binder env)
  unfolding Orgs.add_org_member
  add_org_member_lem c s fresh =
      binding-Moved s _ _
        (λ req. with_directory-Moved s _ _ _ (add_org_member_step _ req s.directory))

  pub remove_org_member_lem : Holds (Orgs.remove_org_member binder env)
  unfolding Orgs.remove_org_member
  remove_org_member_lem c s fresh =
      with_directory-Moved s _ _ _ (remove_org_member_step _ _ s.directory)

  pub create_group_lem : Holds (Groups.create_group binder env)
  unfolding Groups.create_group
  create_group_lem c s fresh =
      binding-Moved s _ _
        (λ req. with_directory-Moved s _ _ _ (create_group_step _ _ req s.directory))

  pub update_group_lem : Holds (Groups.update_group binder env)
  unfolding Groups.update_group
  update_group_lem c s fresh =
      binding-Moved s _ _
        (λ req. with_directory-Moved s _ _ _ (update_group_step _ _ req s.directory))

  pub delete_group_lem : Holds (Groups.delete_group binder env)
  unfolding Groups.delete_group
  delete_group_lem c s fresh = with_directory-Moved s _ _ _ (delete_group_step _ s.directory)

  pub add_group_member_lem : Holds (Groups.add_group_member binder env)
  unfolding Groups.add_group_member
  add_group_member_lem c s fresh =
      binding-Moved s _ _
        (λ req. with_directory-Moved s _ _ _ (add_group_member_step _ _ req s.directory))

  pub remove_group_member_lem : Holds (Groups.remove_group_member binder env)
  unfolding Groups.remove_group_member
  remove_group_member_lem c s fresh =
      with_directory-Moved s _ _ _ (remove_group_member_step _ _ s.directory)
