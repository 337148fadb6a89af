-- ===== src/DirectoryService.antt =====
-- `DirectoryService` of internal/service/directory.go, over the stores in memory. A call takes the
-- time that the clock shows and the id that `uuid.New()` gives.
pub mod Stores
pub mod Details
pub mod Joins
pub mod Refusals
pub mod Edits
use auth_imp.Base.{ℕ, String, Bool, List, map, ◌==◌, ◌||◌, if◌then◌else◌}
use auth_imp.Base.Int.{ℤ}
use auth_imp.Errors.{Error, Result, ok, err, panic}
use auth_imp.Dict.Order.{Order}
use auth_imp.Model.{
  Time, User, Organization, Group, UserOrgRelation, GroupMember, CreateOrgRequest, UpdateOrgRequest,
  AddOrgMemberRequest, OrgMemberDetail, CreateGroupRequest, UpdateGroupRequest,
  AddGroupMemberRequest, GroupMemberDetail,
}
use auth_imp.UserStore
use auth_imp.UserStore.{MemoryStore}
use auth_imp.UserService.{clamp_limit}
use auth_imp.Directory.OrgStore
use auth_imp.Directory.OrgStore.{MemoryOrgStore}
use auth_imp.Directory.GroupStore
use auth_imp.Directory.GroupStore.{MemoryGroupStore}

pub record DirectoryService : Type 0 where
  pub org_store : MemoryOrgStore
  pub group_store : MemoryGroupStore
  pub user_store : MemoryStore

-- The service with the organisation store that a call leaves, and the same for the other stores.
abbrev pub with_orgs {ℓ} :
    {A : Type ℓ} → DirectoryService → A × MemoryOrgStore → A × DirectoryService
with_orgs s (a, store) = (a, record s { org_store = store })

abbrev pub with_groups {ℓ} :
    {A : Type ℓ} → DirectoryService → A × MemoryGroupStore → A × DirectoryService
with_groups s (a, store) = (a, record s { group_store = store })

-- What a call returns after a store's answer.
abbrev pub answering : {A B : Type 0} → B → Result A → Result B
answering b (ok a) = ok b
answering b (err e) = err e
answering b panic = panic

abbrev pub new_org : String → CreateOrgRequest → Organization
new_org id req = record {
  id = id;
  name = req.name;
  parent_id = req.parent_id;
  path = "";
  external_id = req.external_id;
  source_system = req.source_system;
  created_at = 0;
  updated_at = 0;
}

unfoldable pub create_org :
    Time → String → CreateOrgRequest → DirectoryService → Result Organization × DirectoryService
create_org now id req s = with_orgs s (OrgStore.create now (new_org id req) s.org_store)

unfoldable pub get_org : String → DirectoryService → Result Organization
get_org id s = OrgStore.get_by_id id s.org_store

-- The fields that `UpdateOrg` hands to the store.
abbrev pub requested_org : String → UpdateOrgRequest → Organization
requested_org id req = record {
  id = id;
  name = req.name;
  parent_id = req.parent_id;
  path = "";
  external_id = "";
  source_system = "";
  created_at = 0;
  updated_at = 0;
}

abbrev pub org_after :
    String → Result (Unit {0}) × MemoryOrgStore → Result Organization × MemoryOrgStore
org_after id (ok _, store) = (OrgStore.get_by_id id store, store)
org_after id (err e, store) = (err e, store)
org_after id (panic, store) = (panic, store)

unfoldable pub update_org :
    Time → String → UpdateOrgRequest → DirectoryService → Result Organization × DirectoryService
update_org now id req s =
    with_orgs s (org_after id (OrgStore.update now (requested_org id req) s.org_store))

unfoldable pub delete_org : String → DirectoryService → Result (Unit {0}) × DirectoryService
delete_org id s = with_orgs s (OrgStore.delete id s.org_store)

unfoldable pub list_orgs :
    Order Organization → ℤ → ℤ → DirectoryService → Result (List Organization × ℕ)
list_orgs order offset limit s = OrgStore.list order offset (clamp_limit limit) s.org_store

unfoldable pub list_org_children :
    Order Organization → String → DirectoryService → List Organization
list_org_children order parent_id s = OrgStore.list_children order parent_id s.org_store

-- `if role == "" { role = "member" }`
abbrev pub role_or_member : String → String
role_or_member role = if role == "" then "member" else role

abbrev pub new_relation : String → AddOrgMemberRequest → UserOrgRelation
new_relation org_id req = record {
  user_id = req.user_id;
  org_id = org_id;
  role = role_or_member req.role;
  is_primary = req.is_primary;
}

unfoldable pub add_org_member :
    String → AddOrgMemberRequest → DirectoryService → Result UserOrgRelation × DirectoryService
add_org_member org_id req s = elim (UserStore.get_by_id req.user_id s.user_store) [
  | ok _ ↦
      let added = OrgStore.add_member (new_relation org_id req) s.org_store in
      with_orgs s (answering (new_relation org_id req) added.0, added.1)
  | err _ ↦ (err Error.user_not_found, s)
  | panic ↦ (panic, s)
]

unfoldable pub remove_org_member :
    String → String → DirectoryService → Result (Unit {0}) × DirectoryService
remove_org_member org_id user_id s = with_orgs s (OrgStore.remove_member org_id user_id s.org_store)

-- The detail of a relation, from what is found of its user.
abbrev pub org_detail : UserOrgRelation → Result User → OrgMemberDetail
org_detail rel (ok u) = record {
  relation = rel;
  username = u.username;
  email = u.email;
  display_name = u.display_name;
  status = u.status;
}
org_detail rel _ = record {
  relation = rel;
  username = "";
  email = "";
  display_name = "";
  status = "";
}

unfoldable pub list_org_members : String → DirectoryService → Result (List OrgMemberDetail)
list_org_members org_id s = elim (OrgStore.list_members org_id s.org_store) [
  | ok rels ↦ ok (map (λ rel. org_detail rel (UserStore.get_by_id rel.user_id s.user_store)) rels)
  | err e ↦ err e
  | panic ↦ panic
]

unfoldable pub get_user_orgs : String → DirectoryService → List UserOrgRelation
get_user_orgs user_id s = OrgStore.get_user_orgs user_id s.org_store

abbrev pub new_group : String → CreateGroupRequest → Group
new_group id req = record {
  id = id;
  name = req.name;
  description = req.description;
  kind = req.kind;
  created_at = 0;
  updated_at = 0;
}

unfoldable pub create_group :
    Time → String → CreateGroupRequest → DirectoryService → Result Group × DirectoryService
create_group now id req s = with_groups s (GroupStore.create now (new_group id req) s.group_store)

unfoldable pub get_group : String → DirectoryService → Result Group
get_group id s = GroupStore.get_by_id id s.group_store

-- The fields that `UpdateGroup` hands to the store.
abbrev pub requested_group : String → UpdateGroupRequest → Group
requested_group id req = record {
  id = id;
  name = req.name;
  description = req.description;
  kind = req.kind;
  created_at = 0;
  updated_at = 0;
}

abbrev pub group_after :
    String → Result (Unit {0}) × MemoryGroupStore → Result Group × MemoryGroupStore
group_after id (ok _, store) = (GroupStore.get_by_id id store, store)
group_after id (err e, store) = (err e, store)
group_after id (panic, store) = (panic, store)

unfoldable pub update_group :
    Time → String → UpdateGroupRequest → DirectoryService → Result Group × DirectoryService
update_group now id req s =
    with_groups s (group_after id (GroupStore.update now (requested_group id req) s.group_store))

unfoldable pub delete_group : String → DirectoryService → Result (Unit {0}) × DirectoryService
delete_group id s = with_groups s (GroupStore.delete id s.group_store)

unfoldable pub list_groups : Order Group → ℤ → ℤ → DirectoryService → Result (List Group × ℕ)
list_groups order offset limit s = GroupStore.list order offset (clamp_limit limit) s.group_store

abbrev pub new_member : String → AddGroupMemberRequest → GroupMember
new_member group_id req = record {
  group_id = group_id;
  user_id = req.user_id;
  role = role_or_member req.role;
  joined_at = 0;
}

unfoldable pub add_group_member :
    Time → String → AddGroupMemberRequest → DirectoryService → Result GroupMember × DirectoryService
add_group_member now group_id req s = elim (UserStore.get_by_id req.user_id s.user_store) [
  | ok _ ↦ with_groups s (GroupStore.add_member now (new_member group_id req) s.group_store)
  | err _ ↦ (err Error.user_not_found, s)
  | panic ↦ (panic, s)
]

unfoldable pub remove_group_member :
    String → String → DirectoryService → Result (Unit {0}) × DirectoryService
remove_group_member group_id user_id s =
    with_groups s (GroupStore.remove_member group_id user_id s.group_store)

abbrev pub group_detail : GroupMember → Result User → GroupMemberDetail
group_detail m (ok u) = record {
  member = m;
  username = u.username;
  email = u.email;
  display_name = u.display_name;
  status = u.status;
}
group_detail m _ = record { member = m; username = ""; email = ""; display_name = ""; status = "" }

unfoldable pub list_group_members : String → DirectoryService → Result (List GroupMemberDetail)
list_group_members group_id s = elim (GroupStore.list_members group_id s.group_store) [
  | ok members ↦ ok (map (λ m. group_detail m (UserStore.get_by_id m.user_id s.user_store)) members)
  | err e ↦ err e
  | panic ↦ panic
]

unfoldable pub get_user_groups : String → DirectoryService → List GroupMember
get_user_groups user_id s = GroupStore.get_user_groups user_id s.group_store
