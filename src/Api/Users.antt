-- ===== src/Api/Users.antt =====
-- `Handler` of internal/api/handler.go: users, login, sync jobs and the online mark.
use auth_imp.Base.{ℕ, String, true, none, some, ◌==◌, if◌then◌else◌}
use auth_imp.Base.Int.{ℤ}
use auth_imp.Errors
use auth_imp.Errors.{Error}
use auth_imp.Auth.{Service, Jwt}
use auth_imp.UserService
use auth_imp.Uds.Handlers.{Services}
use auth_imp.Api.Numbers.{atoi}
use auth_imp.Api.Http.{
  Body, Answer, json, Binder, Context, Env, Handled, binding, answer_with, with_users, with_jobs,
}

-- `strconv.Atoi(c.DefaultQuery(name, text))`, with its error not looked at.
unfoldable pub int_query : {Raw : Type 0} → Context Raw → String → String → ℤ
int_query c name text = elim (c.query name) [ none ↦ (atoi text).0 | some given ↦ (atoi given).0 ]

-- `c.Query(name)`
unfoldable pub text_query : {Raw : Type 0} → Context Raw → String → String
text_query c name = elim (c.query name) [ none ↦ "" | some given ↦ given ]

module _ {Token : Type 0} where
  abbrev pub fail : ℕ → String → Answer Token
  fail code text = json code (Body.error text)

  -- The answers to the errors of the services.
  abbrev pub create_user_failure : Error → Answer Token
  create_user_failure Error.user_already_exists = fail 409 "user already exists"
  create_user_failure e = fail 400 (Errors.message e)

  abbrev pub user_failure : String → Error → Answer Token
  user_failure text Error.user_not_found = fail 404 "user not found"
  user_failure text e = fail 500 text

module _ {Raw : Type 0} (jwt : Jwt) (auth : Service) (binder : Binder Raw) (env : Env)
    (c : Context Raw) where
  open jwt use {Token}

  unfoldable pub create_user : Services → Handled Token
  create_user s = binding (binder.create_user c.body) s (λ req.
      with_users create_user_failure (λ u. json 201 (Body.user u)) s
        (UserService.create_user env.call.now env.call.id req s.directory.user_store))

  unfoldable pub get_user : Services → Handled Token
  get_user s = (
    answer_with (user_failure "failed to get user") (λ u. json 200 (Body.user u))
        (UserService.get_user (c.param "id") s.directory.user_store),
    s,
  )

  unfoldable pub update_user : Services → Handled Token
  update_user s = binding (binder.update_user c.body) s (λ req.
      with_users (user_failure "failed to update user") (λ u. json 200 (Body.user u)) s
        (UserService.update_user env.call.now (c.param "id") req s.directory.user_store))

  unfoldable pub delete_user : Services → Handled Token
  delete_user s =
      with_users (user_failure "failed to delete user") (λ _. json 204 Body.no_body) s
        (UserService.delete_user env.call.now (c.param "id") s.directory.user_store)

  unfoldable pub list_users : Services → Handled Token
  list_users s =
      let offset = int_query c "offset" "0" in
      let limit = int_query c "limit" "20" in
      (
        answer_with (λ _. fail 500 "failed to list users")
            (λ (us, total).
              json 200
                (Body.users (record { total = total; offset = offset; limit = limit; items = us })))
            (UserService.list_users env.lower env.user_order (text_query c "q") offset limit
              s.directory.user_store),
        s,
      )

  unfoldable pub login : Services → Handled Token
  login s = binding (binder.login c.body) s (λ req.
      with_users (λ e. fail 401 (Errors.message e)) (λ r. json 200 (Body.login r)) s
        (UserService.login jwt auth env.call.now req.username req.password s.directory.user_store))

  unfoldable pub create_sync_job : Services → Handled Token
  create_sync_job s = binding (binder.create_sync_job c.body) s (λ req.
      with_jobs (λ _. fail 500 "failed to create sync job") (λ job. json 201 (Body.sync_job job)) s
        (UserService.create_sync_job env.call.now env.call.id req s.sync_jobs))

  unfoldable pub get_sync_job : Services → Handled Token
  get_sync_job s = (
    answer_with (λ _. fail 404 "sync job not found") (λ job. json 200 (Body.sync_job job))
        (UserService.get_sync_job (c.param "id") s.sync_jobs),
    s,
  )

  unfoldable pub get_online_count : Services → Handled Token
  get_online_count s = (
    answer_with (λ _. fail 500 "failed to get online count") (λ n. json 200 (Body.count n))
        (UserService.get_online_count env.user_order s.directory.user_store),
    s,
  )

  -- `if userID == ""` of the two handlers of the mark
  unfoldable pub signed_in : Services → Handled Token → Handled Token
  signed_in s r = if c.user_id == "" then (fail 401 "unauthorized", s) else r

  unfoldable pub logout : Services → Handled Token
  unfolding signed_in
  logout s = signed_in s (
      with_users (λ _. fail 500 "logout failed")
        (λ _. json 200 (Body.message "logged out successfully")) s
        (UserService.logout env.call.now c.user_id s.directory.user_store))

  unfoldable pub online : Services → Handled Token
  unfolding signed_in
  online s = signed_in s (
      with_users (λ _. fail 500 "failed to set online") (λ _. json 200 (Body.online c.user_id)) s
        (UserService.set_online env.call.now c.user_id true s.directory.user_store))
