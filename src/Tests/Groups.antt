-- ===== src/Tests/Groups.antt =====
-- The group store (internal/directory/memory_store.go) at one group.
use auth_imp.Base.{◌≡◌, some, refl}
use auth_imp.Errors.{ok}
use auth_imp.Dict
use auth_imp.Model.{Group, GroupMember}
use auth_imp.Directory.Membership.{rows, append_row}
use auth_imp.Directory.GroupStore
use auth_imp.Directory.GroupStore.{MemoryGroupStore}
use auth_imp.Directory.GroupStore.Invariant.{
  IsGroupStore, Reach, start, next, create_step, add_step, Reach-IsGroupStore,
}

abbrev group : Group
group = record {
  id = "g1";
  name = "a group";
  description = "";
  kind = "";
  created_at = 0;
  updated_at = 0;
}

-- The member as the caller gives it, and as it is stored.
abbrev member : GroupMember
member = record { group_id = "g1"; user_id = "u1"; role = "member"; joined_at = 0 }

abbrev stored_member : GroupMember
stored_member = record member { joined_at = 2 }

abbrev stored_group : Group
stored_group = record group { created_at = 1; updated_at = 1 }

abbrev one_group : MemoryGroupStore
one_group = (GroupStore.create 1 group GroupStore.new).1

abbrev with_member : MemoryGroupStore
with_member = (GroupStore.add_member 2 member one_group).1

one_group-Reach : Reach one_group
one_group-Reach = next start (create_step 1 group GroupStore.new)

with_member-Reach : Reach with_member
with_member-Reach = next one_group-Reach (add_step 2 member one_group)

with_member-IsGroupStore : IsGroupStore with_member
with_member-IsGroupStore = Reach-IsGroupStore with_member-Reach

one_group-IsGroupStore : IsGroupStore one_group
one_group-IsGroupStore = Reach-IsGroupStore one_group-Reach

group_stored : Dict.get with_member.groups "g1" ≡ some stored_group
unfolding GroupStore.create GroupStore.add_member rows append_row Dict.get Dict.put Dict.empty
group_stored = refl

member_added : (GroupStore.add_member 2 member one_group).0 ≡ ok stored_member
unfolding GroupStore.create GroupStore.add_member rows append_row Dict.get Dict.put Dict.empty
member_added = refl
