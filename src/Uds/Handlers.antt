-- ===== src/Uds/Handlers.antt =====
-- `HandlerRegistry` of internal/uds/handler.go: the handlers of the socket's actions over the two
-- services. A handler takes what it is called with, and gives the response and the services as it
-- leaves them.
pub mod Orgs
pub mod Groups
use Prim.Native.String.{◌++◌}
use auth_imp.Base.{String, Bool, Option, none, some, [], ◌==◌, ◌||◌, ◌&&◌, if◌then◌else◌}
use auth_imp.Errors.{Error, Result, ok, err, panic, message}
use auth_imp.Dict.Order.{Order}
use auth_imp.Model.{Time, User, Organization, Group, SyncJob, sync_type_incremental}
use auth_imp.SyncJobStore.{MemorySyncJobStore}
use auth_imp.UserService
use auth_imp.DirectoryService
use auth_imp.DirectoryService.{DirectoryService}
use auth_imp.Uds.Payloads.{
  AuthPayload, GetUserPayload, TriggerSyncPayload, Decoder, JsonRequest, JsonResponse,
  ResponsePayload, no_payload, auth_response, get_user_response, trigger_sync_response,
}

-- The stores under the user service and the directory service.
pub record Services : Type 0 where
  pub directory : DirectoryService
  pub sync_jobs : MemorySyncJobStore

-- What a call finds: the clock, a new id, and the orders in which the maps are met.
pub record Call : Type 0 where
  pub now : Time
  pub id : String
  pub org_order : Order Organization
  pub group_order : Order Group

-- A handler returns a response or panics.
pub data Reply : Type 0 where
  reply : JsonResponse → Reply
  crash : Reply

-- `errorResp`
abbrev pub error_resp : String → String → JsonResponse
error_resp request_id msg = record {
  status = "error";
  payload = no_payload;
  request_id = request_id;
  error = msg;
}

abbrev pub success : String → ResponsePayload → JsonResponse
success request_id payload = record {
  status = "success";
  payload = payload;
  request_id = request_id;
  error = "";
}

-- The response to a service's result.
unfoldable pub respond :
    {A : Type 0} → String → (Error → String) → (A → ResponsePayload) → Result A → Reply
respond request_id text payload (ok a) = reply (success request_id (payload a))
respond request_id text payload (err e) = reply (error_resp request_id (text e))
respond request_id text payload panic = crash

-- `fmt.Sprintf("failed to ...: %v", err)`
abbrev pub failed_to : String → Error → String
failed_to what e = "failed to " ++ (what ++ (": " ++ message e))

-- A payload that does not decode is refused.
unfoldable pub decoded :
    {P : Type 0} → String → String → Option P → Services → (P → Reply × Services) → Reply × Services
decoded action request_id none s f =
    (reply (error_resp request_id ("invalid " ++ (action ++ " payload"))), s)
decoded action request_id (some p) s f = f p

-- A test that the handler makes first: where it fails, nothing else happens.
unfoldable pub required : Bool → String → String → Services → Reply × Services → Reply × Services
required missing text request_id s r =
    if missing then (reply (error_resp request_id text), s) else r

abbrev pub auth_info : User → ResponsePayload
auth_info u = auth_response (record {
  user_id = u.id;
  username = u.username;
  email = u.email;
  display_name = u.display_name;
})

abbrev pub user_info : User → ResponsePayload
user_info u = get_user_response (record {
  user_id = u.id;
  username = u.username;
  email = u.email;
  display_name = u.display_name;
  organizations = [];
})

abbrev pub sync_info : SyncJob → ResponsePayload
sync_info job =
    trigger_sync_response
      (record { job_id = job.id; estimated_duration = "30s"; message = "Sync job started" })

-- The response, and the services with the sync jobs that the call left.
unfoldable pub with_jobs :
    String → Services → Result SyncJob × MemorySyncJobStore → Reply × Services
unfolding respond
with_jobs request_id s (r, jobs) =
    (respond request_id (failed_to "create sync job") sync_info r, record s { sync_jobs = jobs })

-- The response, and the services with the directory that the call left.
unfoldable pub with_directory :
    {A : Type 0}
    → String
    → String
    → (A → ResponsePayload)
    → Services
    → Result A × DirectoryService
    → Reply × Services
unfolding respond
with_directory request_id what payload s (r, directory) =
    (respond request_id (failed_to what) payload r, record s { directory = directory })

module _ {Raw : Type 0} (decoder : Decoder Raw) (call : Call) where
  unfoldable pub handle_auth : Raw → String → Services → Reply × Services
  handle_auth raw request_id s = decoded "auth" request_id (decoder.auth raw) s (λ p.
      required (p.username == "" || p.password == "") "username and password are required"
        request_id s
        (
          respond request_id (λ e. message e) auth_info
              (UserService.verify_credentials p.username p.password s.directory.user_store),
          s,
        ))

  unfoldable pub handle_get_user : Raw → String → Services → Reply × Services
  handle_get_user raw request_id s = decoded "get_user" request_id (decoder.get_user raw) s (λ p.
      required (p.user_id == "" && p.username == "") "user_id or username is required" request_id s
        (
          respond request_id (λ e. "user not found") user_info
              (if p.user_id == ""
                then UserService.get_user_by_username p.username s.directory.user_store
                else UserService.get_user p.user_id s.directory.user_store),
          s,
        ))

  unfoldable pub handle_trigger_sync : Raw → String → Services → Reply × Services
  handle_trigger_sync raw request_id s =
      decoded "trigger_sync" request_id (decoder.trigger_sync raw) s (λ p.
        required (p.source_system == "") "source_system is required" request_id s (
          with_jobs request_id s (
            UserService.create_sync_job call.now call.id
              (record {
                source_system = p.source_system;
                sync_type = if p.sync_type == "" then sync_type_incremental else p.sync_type;
              })
              s.sync_jobs)))

  unfoldable pub handle_ping : Raw → String → Services → Reply × Services
  handle_ping raw request_id s = (
    reply (record { status = "pong"; payload = no_payload; request_id = request_id; error = "" }),
    s,
  )
