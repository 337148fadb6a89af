-- ===== src/Tests/Runs.antt =====
-- Runs of the whole service (cmd/main.go), and its start.
use auth_imp.Base.{String, ◌≡◌, some, List}
use auth_imp.Errors.{ok}
use auth_imp.UserStore.Invariant.{IsUserStore}
use auth_imp.UserService.{verify_credentials}
use auth_imp.SyncJobStore
use auth_imp.Directory.OrgStore
use auth_imp.Directory.GroupStore
use auth_imp.Directory.OrgStore.Invariant.{IsOrgStore}
use auth_imp.Directory.OrgStore.Paths.{IsPathed}
use auth_imp.Directory.GroupStore.Invariant.{IsGroupStore}
use auth_imp.Uds.Handlers.{Services}
use auth_imp.Uds.Codec.{Byte}
use auth_imp.Uds.Registry.{handle}
use auth_imp.Service.{services}
use auth_imp.Service.Bootstrap.{stored_user, first_services, services-start, services-first}
use auth_imp.System.Runs.{Reach, started, next, socket_step, Reach-invariants}
use auth_imp.Tests.Rest.{binder, read_token, exact}
use auth_imp.Tests.Tokens.{plain_jwt, service}
use auth_imp.Tests.Sockets.{decoder, call, request}

services-start_example :
    (s : Services) × (services 3 "a1" ≡ some s)
    × IsUserStore s.directory.user_store
    × (s.directory.org_store ≡ OrgStore.new)
    × (s.directory.group_store ≡ GroupStore.new)
    × (s.sync_jobs ≡ SyncJobStore.new)
    × (verify_credentials "admin" "Admin@123456" s.directory.user_store ≡ ok (stored_user 3 "a1"))
services-start_example = services-start 3 "a1"

abbrev after : Services
after = (handle decoder call request (first_services 3 "a1")).1

abbrev text : List Byte → String
text _ = "admin"

after-Reach : Reach plain_jwt read_token service binder exact decoder text after
after-Reach =
    next (started 3 "a1" (first_services 3 "a1") (services-first 3 "a1"))
      (socket_step call request _)

Reach-invariants_example :
    IsUserStore after.directory.user_store
    × IsOrgStore after.directory.org_store
    × IsPathed after.directory.org_store
    × IsGroupStore after.directory.group_store
Reach-invariants_example =
    Reach-invariants plain_jwt read_token service binder exact decoder text after-Reach
