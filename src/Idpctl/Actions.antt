-- ===== src/Idpctl/Actions.antt =====
-- The socket's requests of the client, and the actions that the server registers.
use auth_imp.Base.{String, Option, none, some, Bool, true, false, ◌≡◌, refl}
use auth_imp.Base.Int.{ℤ}
use auth_imp.Uds.Payloads.{Decoder}
use auth_imp.Uds.Handlers.{Call}
use auth_imp.Uds.Registry.{ActionHandler, lookup, handlers}
use auth_imp.Idpctl.{Action, rest_call, uds_call, crash}
use auth_imp.Idpctl.Commands.{
  with_org_id, run, Command, auth_login_command, user_create_command, user_get_command,
  user_list_command, user_update_command, user_delete_command, user_online_count_command,
  org_create_command, org_get_command, org_list_command, org_members_command,
  org_add_member_command, org_remove_member_command, org_delete_command, group_create_command,
  group_get_command, group_list_command, group_members_command, group_add_member_command,
  group_remove_member_command, group_delete_command, auth_login, user_create, user_get, user_list,
  user_update, user_delete, user_online_count, org_create, org_get, org_list, org_members,
  org_add_member, org_remove_member, org_delete, group_create, group_get, group_list, group_members,
  group_add_member, group_remove_member, group_delete,
}

module _ {Raw : Type 0} (decoder : Decoder Raw) (call : Call) where
  -- The server has a handler for what is sent over its socket.
  abbrev pub IsHandled : {Object : Type 0} → Action Object → Type 0
  IsHandled (uds_call action _) =
      (h : ActionHandler Raw) × (lookup action (handlers decoder call) ≡ some h)
  IsHandled (rest_call _ _ _) = Unit
  IsHandled crash = Unit

  module _ {Object : Type 0} (unmarshal : String → Option Object)
      (set_entry : String → String → Object → Object) (itoa : ℤ → String) where
    with_org_id-IsHandled :
        (id : String) (o : Option Object) → IsHandled (with_org_id unmarshal set_entry itoa id o)
    unfolding lookup handlers
    with_org_id-IsHandled id none = tt
    with_org_id-IsHandled id (some payload) = (_, refl)

    -- Whatever a command sends over the socket, the server has registered its action.
    pub run-IsHandled :
        (use_uds : Bool) (command : Command)
        → IsHandled (run unmarshal set_entry itoa use_uds command)
    unfolding run lookup handlers auth_login user_create user_get user_list user_update user_delete
        user_online_count org_create org_get org_list org_members org_add_member org_remove_member
        org_delete group_create group_get group_list group_members group_add_member
        group_remove_member group_delete
    run-IsHandled false (auth_login_command _ _) = tt
    run-IsHandled true (auth_login_command _ _) = (_, refl)
    run-IsHandled use_uds (user_create_command _ _ _) = tt
    run-IsHandled false (user_get_command _) = tt
    run-IsHandled true (user_get_command _) = (_, refl)
    run-IsHandled use_uds (user_list_command _ _) = tt
    run-IsHandled use_uds (user_update_command _ _) = tt
    run-IsHandled use_uds (user_delete_command _) = tt
    run-IsHandled use_uds user_online_count_command = tt
    run-IsHandled false (org_create_command _ _) = tt
    run-IsHandled true (org_create_command _ _) = (_, refl)
    run-IsHandled false (org_get_command _) = tt
    run-IsHandled true (org_get_command _) = (_, refl)
    run-IsHandled false (org_list_command _) = tt
    run-IsHandled true (org_list_command _) = (_, refl)
    run-IsHandled false (org_members_command _) = tt
    run-IsHandled true (org_members_command _) = (_, refl)
    run-IsHandled false (org_add_member_command id user_id role) = tt
    run-IsHandled true (org_add_member_command id user_id role) = with_org_id-IsHandled id _
    run-IsHandled false (org_remove_member_command _ _) = tt
    run-IsHandled true (org_remove_member_command _ _) = (_, refl)
    run-IsHandled use_uds (org_delete_command _) = tt
    run-IsHandled false (group_create_command _ _) = tt
    run-IsHandled true (group_create_command _ _) = (_, refl)
    run-IsHandled false (group_get_command _) = tt
    run-IsHandled true (group_get_command _) = (_, refl)
    run-IsHandled false group_list_command = tt
    run-IsHandled true group_list_command = (_, refl)
    run-IsHandled false (group_members_command _) = tt
    run-IsHandled true (group_members_command _) = (_, refl)
    run-IsHandled false (group_add_member_command _ _) = tt
    run-IsHandled true (group_add_member_command _ _) = (_, refl)
    run-IsHandled false (group_remove_member_command _ _) = tt
    run-IsHandled true (group_remove_member_command _ _) = (_, refl)
    run-IsHandled use_uds (group_delete_command _) = tt
