-- ===== src/Uds/Handlers/Orgs.antt =====
-- The organisation actions of internal/uds/handler.go.
use auth_imp.Base.{String, Bool, List, map, length, ◌==◌, ◌||◌}
use auth_imp.Errors.{Result, ok}
use auth_imp.Model.{Organization, UserOrgRelation, OrgMemberDetail}
use auth_imp.DirectoryService
use auth_imp.DirectoryService.{DirectoryService}
use auth_imp.Uds.Payloads.{
  Decoder, ResponsePayload, org_response, list_orgs_response, list_org_members_response,
  message_response, OrgDetailInfo, OrgMemberInfo,
}
use auth_imp.Uds.Handlers.{
  Services, Call, Reply, respond, failed_to, decoded, required, with_directory,
}

abbrev pub org_info : Organization → OrgDetailInfo
org_info o = record {
  org_id = o.id;
  name = o.name;
  parent_id = o.parent_id;
  path = o.path;
  role = "";
}

abbrev pub org_items : List OrgDetailInfo → ResponsePayload
org_items items = list_orgs_response (record { items = items; total = length items })

abbrev pub org_member_info : OrgMemberDetail → OrgMemberInfo
org_member_info d = record {
  user_id = d.relation.user_id;
  username = d.username;
  display_name = d.display_name;
  role = d.relation.role;
}

abbrev pub org_member_items : List OrgMemberInfo → ResponsePayload
org_member_items items = list_org_members_response (record { items = items; total = length items })

-- What a user is told of an organisation: the relation, and what is found of the organisation.
abbrev pub joined_org : UserOrgRelation → Result Organization → OrgDetailInfo
joined_org rel (ok o) = record {
  org_id = rel.org_id;
  name = o.name;
  parent_id = o.parent_id;
  path = o.path;
  role = rel.role;
}
joined_org rel _ = record {
  org_id = rel.org_id;
  name = "";
  parent_id = "";
  path = "";
  role = rel.role;
}

module _ {Raw : Type 0} (decoder : Decoder Raw) (call : Call) where
  unfoldable pub handle_create_org : Raw → String → Services → Reply × Services
  handle_create_org raw request_id s =
      decoded "create_org" request_id (decoder.create_org raw) s (λ p.
        required (p.name == "") "name is required" request_id s (
          with_directory request_id "create org" (λ o. org_response (org_info o)) s
            (DirectoryService.create_org call.now call.id
              (record {
                name = p.name;
                parent_id = p.parent_id;
                external_id = "";
                source_system = "";
              })
              s.directory)))

  unfoldable pub handle_get_org : Raw → String → Services → Reply × Services
  handle_get_org raw request_id s = decoded "get_org" request_id (decoder.get_org raw) s (λ p.
      required (p.org_id == "") "org_id is required" request_id s (
        respond request_id (λ e. "org not found") (λ o. org_response (org_info o))
            (DirectoryService.get_org p.org_id s.directory),
        s,
      ))

  unfoldable pub handle_list_orgs : Raw → String → Services → Reply × Services
  handle_list_orgs raw request_id s =
      let p = decoder.list_orgs raw in
      (
        respond request_id (failed_to "list orgs")
            (λ (items, total).
              list_orgs_response (record { items = map org_info items; total = total }))
            (DirectoryService.list_orgs call.org_order p.offset p.limit s.directory),
        s,
      )

  unfoldable pub handle_add_org_member : Raw → String → Services → Reply × Services
  handle_add_org_member raw request_id s =
      decoded "add_org_member" request_id (decoder.add_org_member raw) s (λ p.
        required (p.org_id == "" || p.user_id == "") "org_id and user_id are required" request_id s
          (with_directory request_id "add member" (λ _. message_response "member added") s
            (DirectoryService.add_org_member p.org_id
              (record { user_id = p.user_id; role = p.role; is_primary = Bool.false })
              s.directory)))

  unfoldable pub handle_remove_org_member : Raw → String → Services → Reply × Services
  handle_remove_org_member raw request_id s =
      decoded "remove_org_member" request_id (decoder.remove_org_member raw) s (λ p.
        required (p.org_id == "" || p.user_id == "") "org_id and user_id are required" request_id s
          (with_directory request_id "remove member" (λ _. message_response "member removed") s
            (DirectoryService.remove_org_member p.org_id p.user_id s.directory)))

  unfoldable pub handle_list_org_members : Raw → String → Services → Reply × Services
  handle_list_org_members raw request_id s =
      decoded "list_org_members" request_id (decoder.list_org_members raw) s (λ p.
        required (p.org_id == "") "org_id is required" request_id s (
          respond request_id (failed_to "list members")
              (λ details. org_member_items (map org_member_info details))
              (DirectoryService.list_org_members p.org_id s.directory),
          s,
        ))

  unfoldable pub handle_get_user_orgs : Raw → String → Services → Reply × Services
  handle_get_user_orgs raw request_id s =
      decoded "get_user_orgs" request_id (decoder.get_user_orgs raw) s (λ p.
        required (p.user_id == "") "user_id is required" request_id s (
          respond request_id (failed_to "get user orgs")
              (λ rels.
                org_items
                  (map (λ r. joined_org r (DirectoryService.get_org r.org_id s.directory)) rels))
              (ok (DirectoryService.get_user_orgs p.user_id s.directory)),
          s,
        ))
