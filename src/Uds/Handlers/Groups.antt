-- ===== src/Uds/Handlers/Groups.antt =====
-- The group actions of internal/uds/handler.go.
use auth_imp.Base.{String, List, map, length, ◌==◌, ◌||◌}
use auth_imp.Errors.{Result, ok}
use auth_imp.Model.{Group, GroupMember, GroupMemberDetail}
use auth_imp.DirectoryService
use auth_imp.DirectoryService.{DirectoryService}
use auth_imp.Uds.Payloads.{
  Decoder, ResponsePayload, group_response, list_groups_response, list_group_members_response,
  message_response, GroupDetailInfo, GroupMemberInfo,
}
use auth_imp.Uds.Handlers.{
  Services, Call, Reply, respond, failed_to, decoded, required, with_directory,
}

abbrev pub group_info : Group → GroupDetailInfo
group_info g = record {
  group_id = g.id;
  name = g.name;
  description = g.description;
  kind = g.kind;
  role = "";
}

abbrev pub group_items : List GroupDetailInfo → ResponsePayload
group_items items = list_groups_response (record { items = items; total = length items })

abbrev pub group_member_info : GroupMemberDetail → GroupMemberInfo
group_member_info d = record {
  user_id = d.member.user_id;
  username = d.username;
  display_name = d.display_name;
  role = d.member.role;
}

abbrev pub group_member_items : List GroupMemberInfo → ResponsePayload
group_member_items items =
    list_group_members_response (record { items = items; total = length items })

-- What a user is told of a group: the relation, and what is found of the group.
abbrev pub joined_group : GroupMember → Result Group → GroupDetailInfo
joined_group m (ok g) = record {
  group_id = m.group_id;
  name = g.name;
  description = g.description;
  kind = g.kind;
  role = m.role;
}
joined_group m _ = record {
  group_id = m.group_id;
  name = "";
  description = "";
  kind = "";
  role = m.role;
}

module _ {Raw : Type 0} (decoder : Decoder Raw) (call : Call) where
  unfoldable pub handle_create_group : Raw → String → Services → Reply × Services
  handle_create_group raw request_id s =
      decoded "create_group" request_id (decoder.create_group raw) s (λ p.
        required (p.name == "") "name is required" request_id s (
          with_directory request_id "create group" (λ o. group_response (group_info o)) s
            (DirectoryService.create_group call.now call.id
              (record { name = p.name; description = p.description; kind = p.kind }) s.directory)))

  unfoldable pub handle_get_group : Raw → String → Services → Reply × Services
  handle_get_group raw request_id s = decoded "get_group" request_id (decoder.get_group raw) s (λ p.
      required (p.group_id == "") "group_id is required" request_id s (
        respond request_id (λ e. "group not found") (λ o. group_response (group_info o))
            (DirectoryService.get_group p.group_id s.directory),
        s,
      ))

  unfoldable pub handle_list_groups : Raw → String → Services → Reply × Services
  handle_list_groups raw request_id s =
      let p = decoder.list_groups raw in
      (
        respond request_id (failed_to "list groups")
            (λ (items, total).
              list_groups_response (record { items = map group_info items; total = total }))
            (DirectoryService.list_groups call.group_order p.offset p.limit s.directory),
        s,
      )

  unfoldable pub handle_add_group_member : Raw → String → Services → Reply × Services
  handle_add_group_member raw request_id s =
      decoded "add_group_member" request_id (decoder.add_group_member raw) s (λ p.
        required (p.group_id == "" || p.user_id == "") "group_id and user_id are required"
          request_id s
          (with_directory request_id "add member" (λ _. message_response "member added") s
            (DirectoryService.add_group_member call.now p.group_id
              (record { user_id = p.user_id; role = p.role }) s.directory)))

  unfoldable pub handle_remove_group_member : Raw → String → Services → Reply × Services
  handle_remove_group_member raw request_id s =
      decoded "remove_group_member" request_id (decoder.remove_group_member raw) s (λ p.
        required (p.group_id == "" || p.user_id == "") "group_id and user_id are required"
          request_id s
          (with_directory request_id "remove member" (λ _. message_response "member removed") s
            (DirectoryService.remove_group_member p.group_id p.user_id s.directory)))

  unfoldable pub handle_list_group_members : Raw → String → Services → Reply × Services
  handle_list_group_members raw request_id s =
      decoded "list_group_members" request_id (decoder.list_group_members raw) s (λ p.
        required (p.group_id == "") "group_id is required" request_id s (
          respond request_id (failed_to "list members")
              (λ details. group_member_items (map group_member_info details))
              (DirectoryService.list_group_members p.group_id s.directory),
          s,
        ))

  unfoldable pub handle_get_user_groups : Raw → String → Services → Reply × Services
  handle_get_user_groups raw request_id s =
      decoded "get_user_groups" request_id (decoder.get_user_groups raw) s (λ p.
        required (p.user_id == "") "user_id is required" request_id s (
          respond request_id (failed_to "get user groups")
              (λ rels. group_items (
                map (λ r. joined_group r (DirectoryService.get_group r.group_id s.directory)) rels))
              (ok (DirectoryService.get_user_groups p.user_id s.directory)),
          s,
        ))
