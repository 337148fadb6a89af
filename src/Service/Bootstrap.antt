-- ===== src/Service/Bootstrap.antt =====
-- What the front ends start with.
use auth_imp.Base.{String, ◌≡◌, ◌≢◌, refl, ap, sym, subst, ◌∙◌, some, arith, eq_iff}
use auth_imp.Errors.{ok}
use auth_imp.Dict.{get-empty}
use auth_imp.Model.{Time, User, user_status_active, user_status_deleted}
use auth_imp.Auth.{hash_password, verify_password}
use auth_imp.UserStore
use auth_imp.UserStore.{MemoryStore, stamp_new}
use auth_imp.UserStore.Invariant.{IsUserStore, new-IsUserStore, create-IsUserStore}
use auth_imp.UserStore.Outcomes.{create_free}
use auth_imp.UserStore.Creates.{create_found}
use auth_imp.UserService.{verify_credentials}
use auth_imp.SyncJobStore
use auth_imp.DirectoryService.Stores as Directory
use auth_imp.UserStore.Invariant as UserRuns
use mathlib.Core.Option.{some-injective}
use auth_imp.Directory.OrgStore
use auth_imp.Directory.GroupStore
use auth_imp.Uds.Handlers.{Services}
use auth_imp.Service.{
  admin, bootstrap_admin, bootstrap_admin_password, bootstrap_admin_user, services,
}

module _ (now : Time) (id : String) where
  abbrev first_user : User
  first_user = admin id bootstrap_admin_password

  abbrev pub stored_user : User
  stored_user = record first_user { created_at = now; updated_at = now }

  abbrev first_store : MemoryStore
  first_store = (UserStore.create now first_user UserStore.new).1

  abbrev pub first_services : Services
  first_services = record {
    directory = record {
      org_store = OrgStore.new;
      group_store = GroupStore.new;
      user_store = first_store;
    };
    sync_jobs = SyncJobStore.new;
  }

  created : (UserStore.create now first_user UserStore.new).0 ≡ ok stored_user
  unfolding stamp_new
  created =
      ap (λ r. r.0)
        (create_free now first_user UserStore.new (get-empty first_user.username)
          (get-empty first_user.email))

  bootstrapped : bootstrap_admin now id UserStore.new ≡ some first_store
  unfolding bootstrap_admin hash_password
  bootstrapped = rw (bootstrap_admin, created) refl

  admin_found :
      verify_credentials bootstrap_admin_user bootstrap_admin_password first_store ≡ ok stored_user
  unfolding verify_credentials verify_password
  admin_found =
      let alive : ◌≢◌ {A = String} user_status_active user_status_deleted =
        ground (arith, eq_iff user_status_active user_status_deleted) in
      let at = (create_found now first_user UserStore.new stored_user alive created).1 in
      ground (arith, at)

  pub services-first : services now id ≡ some first_services
  unfolding services
  services-first = rw (services, bootstrapped) refl

  -- At any time, and with any new id, the process starts, with users that have the user store's
  -- invariant, no organisation, no group and no sync job, and the credentials of the first user give
  -- this user, with the id.
  pub services-start :
      (s : Services) × (services now id ≡ some s)
      × IsUserStore s.directory.user_store
      × (s.directory.org_store ≡ OrgStore.new)
      × (s.directory.group_store ≡ GroupStore.new)
      × (s.sync_jobs ≡ SyncJobStore.new)
      × (verify_credentials "admin" "Admin@123456" s.directory.user_store ≡ ok stored_user)
  unfolding services
  services-start = (
    first_services,
    services-first,
    create-IsUserStore now first_user UserStore.new new-IsUserStore (get-empty id),
    refl,
    refl,
    refl,
    admin_found,
  )

  -- What the process starts with is one step from empty stores.
  pub services-user_step : (s : Services) → services now id ≡ some s → Directory.Reach s.directory
  unfolding services
  services-user_step s e =
      let begun = Directory.next Directory.start (
        Directory.user_step Directory.new first_store
          (UserRuns.create_step now first_user UserStore.new (get-empty id))) in
      subst (λ (t : Services). Directory.Reach t.directory)
        (some-injective _ s (sym services-first ∙ e)) begun
