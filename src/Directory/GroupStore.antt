-- ===== src/Directory/GroupStore.antt =====
-- `MemoryGroupStore` of internal/directory/memory_store.go. As in the organisation store, each
-- operation is one step under the store's lock, and a relation is a value.
pub mod Invariant
pub mod Members
use auth_imp.Base.{ℕ, String, Option, none, some, List, ◌==◌, if◌then◌else◌, any}
use auth_imp.Base.Int.{ℤ}
use auth_imp.Errors.{Error, Result, ok, err}
use auth_imp.Dict
use auth_imp.Dict.{Dict}
use auth_imp.Dict.Order.{Order}
use auth_imp.Model.{Time, Group, GroupMember}
use auth_imp.Page.{page}
use auth_imp.Directory.Membership.{rows, append_row, drop_rows, drop_each}

pub record MemoryGroupStore : Type 0 where
  pub groups : Dict Group
  -- by group
  pub members : Dict (List GroupMember)
  -- by user
  pub user_groups : Dict (List GroupMember)

-- `NewMemoryGroupStore`
abbrev pub new : MemoryGroupStore
new = record { groups = Dict.empty; members = Dict.empty; user_groups = Dict.empty }

abbrev pub group_of : GroupMember → String
group_of m = m.group_id

abbrev pub user_of : GroupMember → String
user_of m = m.user_id

abbrev pub stamped : Time → Group → Group
stamped now group = record group { created_at = now; updated_at = now }

unfoldable pub create : Time → Group → MemoryGroupStore → Result Group × MemoryGroupStore
create now group s = elim (Dict.get s.groups group.id) [
  | some _ ↦ (err Error.group_already_exists, s)
  | none ↦
      (ok (stamped now group), record s { groups = Dict.put s.groups group.id (stamped now group) })
]

unfoldable pub get_by_id : String → MemoryGroupStore → Result Group
get_by_id id s = elim (Dict.get s.groups id) [
  | none ↦ err Error.group_not_found
  | some group ↦ ok group
]

-- The fields of `group` that are not empty, put over the stored ones.
unfoldable pub overlay : Time → Group → Group → Group
overlay now group existing = record existing {
  name = if group.name == "" then existing.name else group.name;
  description = if group.description == "" then existing.description else group.description;
  kind = if group.kind == "" then existing.kind else group.kind;
  updated_at = now;
}

unfoldable pub update : Time → Group → MemoryGroupStore → Result (Unit {0}) × MemoryGroupStore
unfolding overlay
update now group s = elim (Dict.get s.groups group.id) [
  | none ↦ (err Error.group_not_found, s)
  | some existing ↦
      (ok tt, record s { groups = Dict.put s.groups group.id (overlay now group existing) })
]

-- `removeUserGroupRelation`
unfoldable pub remove_user_group_relation :
    String → String → Dict (List GroupMember) → Dict (List GroupMember)
remove_user_group_relation user_id group_id = drop_rows group_of user_id group_id

unfoldable pub delete : String → MemoryGroupStore → Result (Unit {0}) × MemoryGroupStore
delete id s = elim (Dict.get s.groups id) [
  | none ↦ (err Error.group_not_found, s)
  | some _ ↦ (
    ok tt,
    record {
      groups = Dict.remove s.groups id;
      members = Dict.remove s.members id;
      user_groups = drop_each group_of user_of id (rows s.members id) s.user_groups;
    },
  )
]

unfoldable pub list : Order Group → ℤ → ℤ → MemoryGroupStore → Result (List Group × ℕ)
list order offset limit s = page (order (Dict.values s.groups)) offset limit

-- The relation that `AddMember` stores, with the time of joining.
abbrev pub joined : Time → GroupMember → GroupMember
joined now member = record member { joined_at = now }

unfoldable pub add_member :
    Time → GroupMember → MemoryGroupStore → Result GroupMember × MemoryGroupStore
add_member now member s = elim (Dict.get s.groups member.group_id) [
  | none ↦ (err Error.group_not_found, s)
  | some _ ↦
      if any (λ m. m.user_id == member.user_id) (rows s.members member.group_id)
      then (err Error.member_exists, s)
      else (
        ok (joined now member),
        record s {
          members = append_row s.members member.group_id (joined now member);
          user_groups = append_row s.user_groups member.user_id (joined now member);
        },
      )
]

unfoldable pub remove_member :
    String → String → MemoryGroupStore → Result (Unit {0}) × MemoryGroupStore
unfolding remove_user_group_relation
remove_member group_id user_id s =
    if any (λ m. m.user_id == user_id) (rows s.members group_id)
    then (
      ok tt,
      record s {
        members = drop_rows user_of group_id user_id s.members;
        user_groups = remove_user_group_relation user_id group_id s.user_groups;
      },
    )
    else (err Error.member_not_found, s)

unfoldable pub list_members : String → MemoryGroupStore → Result (List GroupMember)
list_members group_id s = elim (Dict.get s.groups group_id) [
  | none ↦ err Error.group_not_found
  | some _ ↦ ok (rows s.members group_id)
]

unfoldable pub get_user_groups : String → MemoryGroupStore → List GroupMember
get_user_groups user_id s = rows s.user_groups user_id
