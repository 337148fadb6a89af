-- ===== src/Api/Router/Settled.antt =====
-- What a handler that refuses a request leaves behind.
use auth_imp.Base.{◌≡◌, ◌<◌, ◌⊎◌, inl, inr, refl, sym, subst, Bool-cases, true, arith, ◌==◌}
use auth_imp.Errors.{Error, Result, Result-cases, ok, err, panic}
use auth_imp.Model.{User, UpdateUserRequest, user_status_deleted}
use auth_imp.UserStore.{MemoryStore}
use auth_imp.UserStore.Creates.{SameView, SameView-refl}
use auth_imp.SyncJobStore
use auth_imp.SyncJobStore.{MemorySyncJobStore}
use auth_imp.Auth.{Service, Jwt, generate_token}
use auth_imp.UserService
use auth_imp.UserService.Refusals.{
  IsSilent, create_user-IsSilent, update_user-IsSilent, delete_user-IsSilent, set_online-IsSilent,
  logout-IsSilent,
}
use auth_imp.DirectoryService.{DirectoryService}
use auth_imp.DirectoryService.Refusals.{IsQuiet}
use auth_imp.Uds.Handlers.{Services}
use auth_imp.Api.Http.{
  Answer, json, crash, Bound, bound, unbound, Binder, Context, Env, Handled, binding, answer_with,
  with_users, with_jobs, with_directory,
}
use auth_imp.Api.Users

-- Every table is as before, and every lookup of a user.
pub record SameServices (s t : Services) : Type 0 where
  pub same_users : SameView s.directory.user_store t.directory.user_store
  pub same_orgs : t.directory.org_store ≡ s.directory.org_store
  pub same_groups : t.directory.group_store ≡ s.directory.group_store
  pub same_jobs : t.sync_jobs ≡ s.sync_jobs

pub SameServices-refl : (s : Services) → SameServices s s
SameServices-refl s = record {
  same_users = SameView-refl s.directory.user_store;
  same_orgs = refl;
  same_groups = refl;
  same_jobs = refl;
}

same_directory :
    (s : Services) (d : DirectoryService)
    → d ≡ s.directory
    → SameServices s (record s { directory = d })
same_directory s d e =
    subst (λ old. SameServices s (record s { directory = old })) (sym e) (SameServices-refl s)

-- A status that reports no error.
abbrev pub IsSuccess : {Token : Type 0} → Answer Token → Type 0
IsSuccess (json code _) = code < 400
IsSuccess crash = ⊥

-- The answer reports no error, or the services are the same, or `X` is the reason.
abbrev pub IsSettled : {Token : Type 0} → Type 0 → Services → Handled Token → Type 0
IsSettled X s (a, t) = IsSuccess a ⊎ (SameServices s t ⊎ X)

module _ {Token : Type 0} (X : Type 0) (s : Services) where
  pub same-IsSettled : (a : Answer Token) → IsSettled X s (a, s)
  same-IsSettled a = inr (inl (SameServices-refl s))

  pub binding-IsSettled :
      {P : Type 0} (b : Bound P) (f : P → Handled Token)
      → ((p : P) → b ≡ bound p → IsSettled X s (f p))
      → IsSettled X s (binding b s f)
  unfolding binding
  binding-IsSettled (bound p) f h = h p refl
  binding-IsSettled (unbound text) f h = inr (inl (SameServices-refl s))

  module _ {A : Type 0} (failure : Error → Answer Token) (done : A → Answer Token)
      (good : (a : A) → IsSuccess (done a)) where
    pub with_users-IsSettled :
        (p : Result A × MemoryStore)
        → IsSilent s.directory.user_store p
        → IsSettled X s (with_users failure done s p)
    unfolding with_users answer_with
    with_users-IsSettled (ok a, t) q = inl (good a)
    with_users-IsSettled (err _, t) q =
        inr
          (inl (record { same_users = q; same_orgs = refl; same_groups = refl; same_jobs = refl }))
    with_users-IsSettled (panic, t) q =
        inr
          (inl (record { same_users = q; same_orgs = refl; same_groups = refl; same_jobs = refl }))

    pub with_directory-IsSettled :
        (p : Result A × DirectoryService)
        → IsQuiet s.directory p
        → IsSettled X s (with_directory failure done s p)
    unfolding with_directory answer_with
    with_directory-IsSettled (ok a, t) q = inl (good a)
    with_directory-IsSettled (err _, t) q = inr (inl (same_directory s t q))
    with_directory-IsSettled (panic, t) q = inr (inl (same_directory s t q))

-- Why a request that fails changes something all the same: a user was given the status of a deleted
-- one, or there is no token for a user who was logged in.
abbrev pub Exception : {Raw : Type 0} (jwt : Jwt) → Service → Binder Raw → Env → Raw → Type 0
Exception jwt auth binder env body =
    ((req : UpdateUserRequest) × (binder.update_user body ≡ bound req)
      × (req.status ≡ user_status_deleted))
    ⊎ ((u : User) × (((e : Error) × (generate_token jwt auth env.call.now u.id u.username ≡ err e))
          ⊎ (generate_token jwt auth env.call.now u.id u.username ≡ panic)))

module _ {Raw : Type 0} (jwt : Jwt) (auth : Service) (binder : Binder Raw) (env : Env)
    (c : Context Raw) (s : Services) where
  abbrev Outcome : Handled jwt.Token → Type 0
  Outcome = IsSettled (Exception jwt auth binder env c.body) s

  abbrev X : Type 0
  X = Exception jwt auth binder env c.body

  pub create_user_lem : Outcome (Users.create_user jwt auth binder env c s)
  unfolding Users.create_user
  create_user_lem = binding-IsSettled X s _ _ (λ req _.
      with_users-IsSettled X s _ _ (λ _. omega arith) _
        (create_user-IsSilent _ _ s.directory.user_store req))

  pub update_user_lem : Outcome (Users.update_user jwt auth binder env c s)
  unfolding Users.update_user
  update_user_lem = binding-IsSettled X s _ _ (λ req is.
      elim (update_user-IsSilent env.call.now (c.param "id") s.directory.user_store req) [
        | inl silent ↦ with_users-IsSettled X s _ _ (λ _. omega arith) _ silent
        | inr deleted ↦ inr (inr (inl (req, is, deleted)))
      ])

  pub delete_user_lem : Outcome (Users.delete_user jwt auth binder env c s)
  unfolding Users.delete_user
  delete_user_lem =
      with_users-IsSettled X s _ _ (λ _. omega arith) _
        (delete_user-IsSilent _ _ s.directory.user_store)

  pub signed_in_lem :
      (r : Handled jwt.Token) → Outcome r → Outcome (Users.signed_in jwt auth binder env c s r)
  unfolding Users.signed_in
  signed_in_lem r h = elim (Bool-cases (c.user_id == "")) [
    | inl e ↦ rw (e, Users.signed_in) (inr (inl (SameServices-refl s)))
    | inr e ↦ rw (e, Users.signed_in) h
  ]

  pub logout_lem : Outcome (Users.logout jwt auth binder env c s)
  unfolding Users.logout
  logout_lem = signed_in_lem _ (
      with_users-IsSettled X s _ _ (λ _. omega arith) _
        (logout-IsSilent _ _ s.directory.user_store))

  pub online_lem : Outcome (Users.online jwt auth binder env c s)
  unfolding Users.online
  online_lem = signed_in_lem _ (
      with_users-IsSettled X s _ _ (λ _. omega arith) _
        (set_online-IsSilent _ _ s.directory.user_store true))

  pub create_sync_job_lem : Outcome (Users.create_sync_job jwt auth binder env c s)
  unfolding Users.create_sync_job with_jobs answer_with UserService.create_sync_job
      SyncJobStore.create
  create_sync_job_lem = binding-IsSettled X s _ _ (λ req _. inl (omega arith))

  pub login_lem : Outcome (Users.login jwt auth binder env c s)
  unfolding Users.login UserService.login with_users answer_with
  login_lem = binding-IsSettled X s _ _ (λ req _.
      elim (Result-cases
        (UserService.verify_credentials req.username req.password s.directory.user_store)) [
          | inr (inl (_, e)) ↦
              rw (e, UserService.login, with_users) (inr (inl (SameServices-refl s)))
          | inr (inr e) ↦ rw (e, UserService.login, with_users) (inr (inl (SameServices-refl s)))
          | inl (u, e) ↦
              elim (Result-cases (generate_token jwt auth env.call.now u.id u.username)) [
                | inl (token, signed) ↦
                    rw (e, UserService.login, with_users, signed, answer_with) (inl (omega arith))
                | inr failed ↦ inr (inr (inr (u, failed)))
              ]
        ])
