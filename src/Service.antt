-- ===== src/Service.antt =====
-- The service's entry point (cmd/main.go): its settings from the environment, its first user, and the
-- stores that the three front ends share. Starting and stopping the front ends is left out.
pub mod Bootstrap
use auth_imp.Base.{
  ◌*◌, ◌+◌, ◌-◌, ◌%◌, ◌^◌, ◌≡◌, ◌≤◌, ◌<◌, ℕ, suc, String, Bool, true, false, Option, none, some,
  ltb, ◌==◌, if◌then◌else◌, arith,
}
use auth_imp.Base.Int.{ℤ, pos, negsuc, sub_ℕ, pos_part, neg_part, IsInt}
use auth_imp.Errors.{Result, ok, err, panic}
use auth_imp.Model.{Time, User, zero_user, user_status_active}
use auth_imp.Auth.{Service, new_service, hash_password}
use auth_imp.UserStore
use auth_imp.UserStore.{MemoryStore}
use auth_imp.SyncJobStore
use auth_imp.Directory.OrgStore
use auth_imp.Directory.GroupStore
use auth_imp.Uds.Handlers.{Services}
use auth_imp.Api.Numbers.{atoi}

abbrev pub bootstrap_admin_user : String
bootstrap_admin_user = "admin"

abbrev pub bootstrap_admin_password : String
bootstrap_admin_password = "Admin@123456"

abbrev pub bootstrap_admin_email : String
bootstrap_admin_email = "admin@example.com"

abbrev pub auth_service : Service
unfolding new_service
auth_service = new_service (record {
  jwt_secret = "dev-secret-key-change-in-production";
  token_expiry = pos 0;
  bcrypt_cost = pos 0;
})

abbrev pub admin : String → String → User
admin id hash = record (zero_user id) {
  username = bootstrap_admin_user;
  email = bootstrap_admin_email;
  password_hash = hash;
  display_name = "System Administrator";
  status = user_status_active;
}

-- `bootstrapAdmin`: the store with the user, or nothing where `log.Fatalf` ends the process.
unfoldable pub bootstrap_admin : Time → String → MemoryStore → Option MemoryStore
unfolding hash_password UserStore.create
bootstrap_admin now id s = elim (hash_password bootstrap_admin_password) [
  | err _ ↦ none
  | panic ↦ none
  | ok hash ↦ elim (UserStore.create now (admin id hash) s).0 [
    | err _ ↦ none
    | panic ↦ none
    | ok _ ↦ some (UserStore.create now (admin id hash) s).1
  ]
]

-- The stores of `main` when the front ends start.
unfoldable pub services : Time → String → Option Services
unfolding bootstrap_admin
services now id = elim (bootstrap_admin now id UserStore.new) [
  | none ↦ none
  | some user_store ↦ some (record {
    directory = record {
      org_store = OrgStore.new;
      group_store = GroupStore.new;
      user_store = user_store;
    };
    sync_jobs = SyncJobStore.new;
  })
]

-- `getEnvInt`. The environment gives the empty text for a variable that is not set.
unfoldable pub get_env_int : (String → String) → String → ℤ → ℤ
get_env_int getenv key default_val =
    let parsed = atoi (getenv key) in
    if getenv key == "" then default_val else if parsed.1 then default_val else parsed.0

-- A product in `int64`, as it wraps around.
abbrev pub signed : ℕ → ℤ
signed n = if ltb n (2 ^ 63) then pos n else sub_ℕ n (2 ^ 64)

abbrev pub wrapped : ℤ → ℤ
wrapped (pos n) = signed (n % 2 ^ 64)
wrapped (negsuc n) = signed ((2 ^ 64 - 1) - n % 2 ^ 64)

abbrev pub times : ℤ → ℕ → ℤ
times (pos n) k = pos (n * k)
times (negsuc n) k = sub_ℕ 0 (suc n * k)

-- The arguments of `runtime.GOMAXPROCS` and `debug.SetMemoryLimit` in `setResourceLimits`.
unfoldable pub cpu_limit : (String → String) → ℤ
unfolding get_env_int
cpu_limit getenv = get_env_int getenv "CPU_LIMIT" (pos 1)

unfoldable pub memory_limit : (String → String) → ℤ
unfolding get_env_int
memory_limit getenv = wrapped (times (get_env_int getenv "MEM_LIMIT_MB" (pos 50)) (1024 * 1024))
