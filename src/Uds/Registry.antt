-- ===== src/Uds/Registry.antt =====
-- The registry of internal/uds/handler.go: the actions, and the call of the handler that an action
-- names.
pub mod Each
pub mod Answers
pub mod Replies
use Prim.Native.String.{◌++◌}
use auth_imp.Base.{String, Option, none, some, List, [], ◌∷◌, ◌==◌, if◌then◌else◌}
use auth_imp.Uds.Payloads.{Decoder, JsonRequest}
use auth_imp.Uds.Handlers.{
  Services, Call, Reply, reply, error_resp, handle_auth, handle_get_user, handle_trigger_sync,
  handle_ping,
}
use auth_imp.Uds.Handlers.Orgs.{
  handle_create_org, handle_get_org, handle_list_orgs, handle_add_org_member,
  handle_remove_org_member, handle_list_org_members, handle_get_user_orgs,
}
use auth_imp.Uds.Handlers.Groups.{
  handle_create_group, handle_get_group, handle_list_groups, handle_add_group_member,
  handle_remove_group_member, handle_list_group_members, handle_get_user_groups,
}

-- `ActionHandler`
abbrev pub ActionHandler : Type 0 → Type 0
ActionHandler Raw = Raw → String → Services → Reply × Services

-- The handler under an action in the registered pairs.
unfoldable pub lookup :
    {Raw : Type 0} → String → List (String × ActionHandler Raw) → Option (ActionHandler Raw)
lookup action [] = none
lookup action ((name, handler) ∷ handlers) =
    let later = lookup action handlers in if name == action then some handler else later

module _ {Raw : Type 0} (decoder : Decoder Raw) (call : Call) where
  -- `NewHandlerRegistry`
  unfoldable pub handlers : List (String × ActionHandler Raw)
  handlers =
      ("auth", handle_auth decoder call)
      ∷ ("get_user", handle_get_user decoder call)
      ∷ ("trigger_sync", handle_trigger_sync decoder call)
      ∷ ("ping", handle_ping decoder call)
      ∷ ("create_org", handle_create_org decoder call)
      ∷ ("get_org", handle_get_org decoder call)
      ∷ ("list_orgs", handle_list_orgs decoder call)
      ∷ ("add_org_member", handle_add_org_member decoder call)
      ∷ ("remove_org_member", handle_remove_org_member decoder call)
      ∷ ("list_org_members", handle_list_org_members decoder call)
      ∷ ("get_user_orgs", handle_get_user_orgs decoder call)
      ∷ ("create_group", handle_create_group decoder call)
      ∷ ("get_group", handle_get_group decoder call)
      ∷ ("list_groups", handle_list_groups decoder call)
      ∷ ("add_group_member", handle_add_group_member decoder call)
      ∷ ("remove_group_member", handle_remove_group_member decoder call)
      ∷ ("list_group_members", handle_list_group_members decoder call)
      ∷ ("get_user_groups", handle_get_user_groups decoder call)
      ∷ []

  -- `Handle`
  unfoldable pub handle : JsonRequest Raw → Services → Reply × Services
  unfolding lookup handlers
  handle req s = elim (lookup req.action handlers) [
    | none ↦ (reply (error_resp req.request_id ("unknown action: " ++ req.action)), s)
    | some handler ↦ handler req.payload req.request_id s
  ]
