-- ===== src/UserService.antt =====
-- `UserService` of internal/service/user.go, over the stores in memory. A call takes the time that
-- the clock shows and the id that `uuid.New()` gives.
pub mod Credentials
pub mod Sessions
pub mod Lists
pub mod Refusals
use auth_imp.Base.{
  ℕ, suc, ◌+◌, String, Bool, true, false, Option, none, some, List, [], ◌∷◌, not, ◌==◌, ◌||◌,
  if◌then◌else◌, length, select,
}
use auth_imp.Base.Int.{ℤ, pos, ltb_ℤ, leb_ℤ}
use auth_imp.Errors.{Error, Result, ok, err, panic}
use auth_imp.Dict.Order.{Order}
use auth_imp.Model.{
  Time, User, zero_user, user_status_active, CreateUserRequest, UpdateUserRequest, LoginResponse,
  CreateSyncJobRequest, SyncJob, sync_job_status_pending,
}
use auth_imp.UserStore
use auth_imp.UserStore.{MemoryStore}
use auth_imp.SyncJobStore
use auth_imp.SyncJobStore.{MemorySyncJobStore}
use auth_imp.Auth.{Service, Jwt, hash_password, verify_password, generate_token}

-- The user that `CreateUser` hands to the store.
abbrev pub new_user : String → CreateUserRequest → String → User
new_user id req hash = record (zero_user id) {
  username = req.username;
  email = req.email;
  password_hash = hash;
  display_name = req.display_name;
  status = user_status_active;
}

unfoldable pub create_user :
    Time → String → CreateUserRequest → MemoryStore → Result User × MemoryStore
create_user now id req s = elim (hash_password req.password) [
  | ok hash ↦ UserStore.create now (new_user id req hash) s
  | err e ↦ (err e, s)
  | panic ↦ (panic, s)
]

unfoldable pub get_user : String → MemoryStore → Result User
get_user = UserStore.get_by_id

unfoldable pub get_user_by_username : String → MemoryStore → Result User
get_user_by_username = UserStore.get_by_username

-- The fields of the request, over a user whose other fields are zero: it is not online.
abbrev pub requested : String → UpdateUserRequest → User
requested id req = record (zero_user id) {
  email = req.email;
  display_name = req.display_name;
  status = req.status;
}

-- The answer of a call after an update of the store: its error, or what is found under the id.
abbrev pub after_update : String → Result (Unit {0}) × MemoryStore → Result User × MemoryStore
after_update id (ok _, s) = (UserStore.get_by_id id s, s)
after_update id (err e, s) = (err e, s)
after_update id (panic, s) = (panic, s)

unfoldable pub update_user :
    Time → String → UpdateUserRequest → MemoryStore → Result User × MemoryStore
update_user now id req s = after_update id (UserStore.update now (requested id req) s)

unfoldable pub delete_user : Time → String → MemoryStore → Result (Unit {0}) × MemoryStore
delete_user = UserStore.delete

-- `if limit <= 0 || limit > 100 { limit = 20 }`
unfoldable pub clamp_limit : ℤ → ℤ
clamp_limit limit = if leb_ℤ limit (pos 0) || ltb_ℤ (pos 100) limit then pos 20 else limit

unfoldable pub list_users :
    (String → String) → Order User → String → ℤ → ℤ → MemoryStore → Result (List User × ℕ)
unfolding clamp_limit
list_users lower order q offset limit s =
    if q == ""
    then UserStore.list order offset (clamp_limit limit) s
    else UserStore.search_users lower order q offset (clamp_limit limit) s

-- The tests of `VerifyCredentials` on the user that was found.
abbrev pub check_user : String → User → Result User
check_user password u =
    if u.status == user_status_active
    then (if verify_password u.password_hash password then ok u else err Error.invalid_credentials)
    else err Error.user_disabled

unfoldable pub verify_credentials : String → String → MemoryStore → Result User
unfolding verify_password
verify_credentials username password s = elim (UserStore.get_by_username username s) [
  | ok u ↦ check_user password u
  | err e ↦ err Error.invalid_credentials
  | panic ↦ panic
]

abbrev pub online_mark : String → Bool → User
online_mark id online = record (zero_user id) { is_online = online }

-- `SetOnline`
unfoldable pub set_online : Time → String → Bool → MemoryStore → Result (Unit {0}) × MemoryStore
set_online now user_id online s = UserStore.update now (online_mark user_id online) s

unfoldable pub logout : Time → String → MemoryStore → Result (Unit {0}) × MemoryStore
logout now user_id s = UserStore.update now (online_mark user_id false) s

module _ (jwt : Jwt) where
  open jwt use {Token}

  -- The answer of `Login` for a user, from the result of `GenerateToken`.
  abbrev pub login_response : User → Result (Token × ℤ) → Result (LoginResponse Token)
  login_response u (ok (token, expires)) =
      ok (record { token = token; expires = expires; user = record u { is_online = true } })
  login_response u (err e) = err e
  login_response u panic = panic

  -- The error of the update is not looked at.
  unfoldable pub login :
      Service → Time → String → String → MemoryStore → Result (LoginResponse Token) × MemoryStore
  login auth now username password s = elim (verify_credentials username password s) [
    | ok u ↦ (
      login_response u (generate_token jwt auth now u.id u.username),
      (UserStore.update now (online_mark u.id true) s).1,
    )
    | err e ↦ (err e, s)
    | panic ↦ (panic, s)
  ]

unfoldable pub create_sync_job :
    Time → String → CreateSyncJobRequest → MemorySyncJobStore → Result SyncJob × MemorySyncJobStore
create_sync_job now id req s =
    SyncJobStore.create now
      (record {
        id = id;
        source_system = req.source_system;
        sync_type = req.sync_type;
        status = sync_job_status_pending;
        started_at = some now;
        finished_at = none;
        error_message = "";
        created_at = 0;
        updated_at = 0;
      })
      s

unfoldable pub get_sync_job : String → MemorySyncJobStore → Result SyncJob
get_sync_job = SyncJobStore.get_by_id

-- The loop of `GetOnlineCount`.
unfoldable pub count_online : List User → ℕ
count_online [] = 0
count_online (u ∷ us) = if u.is_online then suc (count_online us) else count_online us

-- It reads the first ten thousand users that `List` gives.
unfoldable pub get_online_count : Order User → MemoryStore → Result ℕ
get_online_count order s = elim (UserStore.list order (pos 0) (pos 10000) s) [
  | ok (users, total) ↦ ok (count_online users)
  | err e ↦ err e
  | panic ↦ panic
]
