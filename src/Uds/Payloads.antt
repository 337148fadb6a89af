-- ===== src/Uds/Payloads.antt =====
-- The messages of internal/uds/codec.go: what requests carry, what responses carry, and the two
-- envelopes. The field `Type` of a group is called `kind`.
use auth_imp.Base.{ℕ, String, List, Option}
use auth_imp.Base.Int.{ℤ}

pub record AuthPayload : Type 0 where
  pub username : String
  pub password : String

pub record AuthResponsePayload : Type 0 where
  pub user_id : String
  pub username : String
  pub email : String
  pub display_name : String

pub record GetUserPayload : Type 0 where
  pub user_id : String
  pub username : String

pub record OrgInfo : Type 0 where
  pub org_id : String
  pub org_name : String
  pub role : String

pub record GetUserResponsePayload : Type 0 where
  pub user_id : String
  pub username : String
  pub email : String
  pub display_name : String
  pub organizations : List OrgInfo

pub record TriggerSyncPayload : Type 0 where
  pub source_system : String
  pub sync_type : String

pub record TriggerSyncResponsePayload : Type 0 where
  pub job_id : String
  pub estimated_duration : String
  pub message : String

pub record CreateOrgPayload : Type 0 where
  pub name : String
  pub parent_id : String

pub record GetOrgPayload : Type 0 where
  pub org_id : String

pub record ListOrgsPayload : Type 0 where
  pub offset : ℤ
  pub limit : ℤ

pub record OrgDetailInfo : Type 0 where
  pub org_id : String
  pub name : String
  pub parent_id : String
  pub path : String
  pub role : String

pub record ListOrgsResponsePayload : Type 0 where
  pub items : List OrgDetailInfo
  pub total : ℕ

pub record AddOrgMemberPayload : Type 0 where
  pub org_id : String
  pub user_id : String
  pub role : String

pub record RemoveOrgMemberPayload : Type 0 where
  pub org_id : String
  pub user_id : String

pub record ListOrgMembersPayload : Type 0 where
  pub org_id : String

pub record OrgMemberInfo : Type 0 where
  pub user_id : String
  pub username : String
  pub display_name : String
  pub role : String

pub record ListOrgMembersResponsePayload : Type 0 where
  pub items : List OrgMemberInfo
  pub total : ℕ

pub record GetUserOrgsPayload : Type 0 where
  pub user_id : String

pub record CreateGroupPayload : Type 0 where
  pub name : String
  pub description : String
  pub kind : String

pub record GetGroupPayload : Type 0 where
  pub group_id : String

pub record ListGroupsPayload : Type 0 where
  pub offset : ℤ
  pub limit : ℤ

pub record GroupDetailInfo : Type 0 where
  pub group_id : String
  pub name : String
  pub description : String
  pub kind : String
  pub role : String

pub record ListGroupsResponsePayload : Type 0 where
  pub items : List GroupDetailInfo
  pub total : ℕ

pub record AddGroupMemberPayload : Type 0 where
  pub group_id : String
  pub user_id : String
  pub role : String

pub record RemoveGroupMemberPayload : Type 0 where
  pub group_id : String
  pub user_id : String

pub record ListGroupMembersPayload : Type 0 where
  pub group_id : String

pub record GroupMemberInfo : Type 0 where
  pub user_id : String
  pub username : String
  pub display_name : String
  pub role : String

pub record ListGroupMembersResponsePayload : Type 0 where
  pub items : List GroupMemberInfo
  pub total : ℕ

pub record GetUserGroupsPayload : Type 0 where
  pub user_id : String

-- The values that the handlers put into the field `Payload` of a response. A message is the map
-- `{"message": ...}`.
pub data ResponsePayload : Type 0 where
  no_payload : ResponsePayload
  auth_response : AuthResponsePayload → ResponsePayload
  get_user_response : GetUserResponsePayload → ResponsePayload
  trigger_sync_response : TriggerSyncResponsePayload → ResponsePayload
  org_response : OrgDetailInfo → ResponsePayload
  list_orgs_response : ListOrgsResponsePayload → ResponsePayload
  list_org_members_response : ListOrgMembersResponsePayload → ResponsePayload
  group_response : GroupDetailInfo → ResponsePayload
  list_groups_response : ListGroupsResponsePayload → ResponsePayload
  list_group_members_response : ListGroupMembersResponsePayload → ResponsePayload
  message_response : String → ResponsePayload

-- The payload of a request is a JSON text, which `json.RawMessage` keeps as it came.
pub record JsonRequest (Raw : Type 0) : Type 0 where
  pub action : String
  pub payload : Raw
  pub request_id : String

pub record JsonResponse : Type 0 where
  pub status : String
  pub payload : ResponsePayload
  pub request_id : String
  pub error : String

-- `json.Unmarshal` of a payload: the struct, unless it returns an error. The two list actions do
-- not look at the error, and take what the struct then holds.
pub record Decoder (Raw : Type 0) : Type 0 where
  pub auth : Raw → Option AuthPayload
  pub get_user : Raw → Option GetUserPayload
  pub trigger_sync : Raw → Option TriggerSyncPayload
  pub create_org : Raw → Option CreateOrgPayload
  pub get_org : Raw → Option GetOrgPayload
  pub list_orgs : Raw → ListOrgsPayload
  pub add_org_member : Raw → Option AddOrgMemberPayload
  pub remove_org_member : Raw → Option RemoveOrgMemberPayload
  pub list_org_members : Raw → Option ListOrgMembersPayload
  pub get_user_orgs : Raw → Option GetUserOrgsPayload
  pub create_group : Raw → Option CreateGroupPayload
  pub get_group : Raw → Option GetGroupPayload
  pub list_groups : Raw → ListGroupsPayload
  pub add_group_member : Raw → Option AddGroupMemberPayload
  pub remove_group_member : Raw → Option RemoveGroupMemberPayload
  pub list_group_members : Raw → Option ListGroupMembersPayload
  pub get_user_groups : Raw → Option GetUserGroupsPayload
