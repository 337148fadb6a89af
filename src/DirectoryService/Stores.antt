-- ===== src/DirectoryService/Stores.antt =====
-- Runs of the directory service are runs of the stores under it.
use auth_imp.Base.{String, ◌≡◌, refl, subst, sym, inl, inr}
use auth_imp.Errors.{Result, Result-cases, ok, err, panic}
use auth_imp.Model.{
  Time, CreateOrgRequest, UpdateOrgRequest, AddOrgMemberRequest, CreateGroupRequest,
  UpdateGroupRequest, AddGroupMemberRequest,
}
use auth_imp.UserStore
use auth_imp.UserStore.{MemoryStore}
use auth_imp.UserStore.Invariant as UserRuns
use auth_imp.Directory.OrgStore
use auth_imp.Directory.OrgStore.{MemoryOrgStore}
use auth_imp.Directory.OrgStore.Invariant as OrgRuns
use auth_imp.Directory.GroupStore
use auth_imp.Directory.GroupStore.{MemoryGroupStore}
use auth_imp.Directory.GroupStore.Invariant as GroupRuns
use auth_imp.DirectoryService.{
  DirectoryService, create_org, update_org, org_after, delete_org, add_org_member,
  remove_org_member, create_group, update_group, group_after, delete_group, add_group_member,
  remove_group_member,
}

-- One call that changes a store: of the directory service, or of the user service on the store
-- that both have.
pub data Step : DirectoryService → DirectoryService → Type 0 where
  user_step :
      (s : DirectoryService) (t : MemoryStore)
      → UserRuns.Step s.user_store t
      → Step s (record s { user_store = t })
  create_org_step :
      (now : Time) (id : String) (req : CreateOrgRequest) (s : DirectoryService)
      → Step s (create_org now id req s).1
  update_org_step :
      (now : Time) (id : String) (req : UpdateOrgRequest) (s : DirectoryService)
      → Step s (update_org now id req s).1
  delete_org_step : (id : String) (s : DirectoryService) → Step s (delete_org id s).1
  add_org_member_step :
      (org_id : String) (req : AddOrgMemberRequest) (s : DirectoryService)
      → Step s (add_org_member org_id req s).1
  remove_org_member_step :
      (org_id user_id : String) (s : DirectoryService)
      → Step s (remove_org_member org_id user_id s).1
  create_group_step :
      (now : Time) (id : String) (req : CreateGroupRequest) (s : DirectoryService)
      → Step s (create_group now id req s).1
  update_group_step :
      (now : Time) (id : String) (req : UpdateGroupRequest) (s : DirectoryService)
      → Step s (update_group now id req s).1
  delete_group_step : (id : String) (s : DirectoryService) → Step s (delete_group id s).1
  add_group_member_step :
      (now : Time) (group_id : String) (req : AddGroupMemberRequest) (s : DirectoryService)
      → Step s (add_group_member now group_id req s).1
  remove_group_member_step :
      (group_id user_id : String) (s : DirectoryService)
      → Step s (remove_group_member group_id user_id s).1

-- `NewDirectoryService` on new stores
abbrev pub new : DirectoryService
new = record { org_store = OrgStore.new; group_store = GroupStore.new; user_store = UserStore.new }

pub data Reach : DirectoryService → Type 0 where
  start : Reach new
  next : {s t : DirectoryService} → Reach s → Step s t → Reach t

-- Each store is one that its own operations reach.
abbrev pub StoresReach : DirectoryService → Type 0
StoresReach s =
    OrgRuns.Reach s.org_store × GroupRuns.Reach s.group_store × UserRuns.Reach s.user_store

org_after-store : (id : String) (p : Result (Unit {0}) × MemoryOrgStore) → (org_after id p).1 ≡ p.1
org_after-store id (ok _, store) = refl
org_after-store id (err e, store) = refl
org_after-store id (panic, store) = refl

group_after-store :
    (id : String) (p : Result (Unit {0}) × MemoryGroupStore) → (group_after id p).1 ≡ p.1
group_after-store id (ok _, store) = refl
group_after-store id (err e, store) = refl
group_after-store id (panic, store) = refl

-- A step leaves every store alone or takes one step of one store.
Step-StoresReach : {s t : DirectoryService} → Step s t → StoresReach s → StoresReach t
unfolding create_org update_org delete_org add_org_member remove_org_member create_group
    update_group delete_group add_group_member remove_group_member
Step-StoresReach (user_step s t step) (o, g, u) = (o, g, UserRuns.next u step)
Step-StoresReach (create_org_step now id req s) (o, g, u) =
    (OrgRuns.next o (OrgRuns.create_step now _ s.org_store), g, u)
Step-StoresReach (update_org_step now id req s) (o, g, u) = (
  subst OrgRuns.Reach (sym (org_after-store id _))
      (OrgRuns.next o (OrgRuns.update_step now _ s.org_store)),
  g,
  u,
)
Step-StoresReach (delete_org_step id s) (o, g, u) =
    (OrgRuns.next o (OrgRuns.delete_step id s.org_store), g, u)
Step-StoresReach (add_org_member_step org_id req s) (o, g, u) =
    elim (Result-cases (UserStore.get_by_id req.user_id s.user_store)) [
      | inl (_, e) ↦ rw (e, add_org_member) (OrgRuns.next o (OrgRuns.add_step _ s.org_store), g, u)
      | inr (inl (_, e)) ↦ rw (e, add_org_member) (o, g, u)
      | inr (inr e) ↦ rw (e, add_org_member) (o, g, u)
    ]
Step-StoresReach (remove_org_member_step org_id user_id s) (o, g, u) =
    (OrgRuns.next o (OrgRuns.remove_step org_id user_id s.org_store), g, u)
Step-StoresReach (create_group_step now id req s) (o, g, u) =
    (o, GroupRuns.next g (GroupRuns.create_step now _ s.group_store), u)
Step-StoresReach (update_group_step now id req s) (o, g, u) = (
  o,
  subst GroupRuns.Reach (sym (group_after-store id _))
      (GroupRuns.next g (GroupRuns.update_step now _ s.group_store)),
  u,
)
Step-StoresReach (delete_group_step id s) (o, g, u) =
    (o, GroupRuns.next g (GroupRuns.delete_step id s.group_store), u)
Step-StoresReach (add_group_member_step now group_id req s) (o, g, u) =
    elim (Result-cases (UserStore.get_by_id req.user_id s.user_store)) [
      | inl (_, e) ↦
          rw (e, add_group_member) (o, GroupRuns.next g (GroupRuns.add_step now _ s.group_store), u)
      | inr (inl (_, e)) ↦ rw (e, add_group_member) (o, g, u)
      | inr (inr e) ↦ rw (e, add_group_member) (o, g, u)
    ]
Step-StoresReach (remove_group_member_step group_id user_id s) (o, g, u) =
    (o, GroupRuns.next g (GroupRuns.remove_step group_id user_id s.group_store), u)

-- In every state that calls of the directory service and operations of the user store reach from
-- empty stores, each of the three stores is one that its own operations reach from the empty
-- store.
pub Reach-StoresReach : {s : DirectoryService} → Reach s → StoresReach s
Reach-StoresReach start = (OrgRuns.start, GroupRuns.start, UserRuns.start)
Reach-StoresReach (next r step) = Step-StoresReach step (Reach-StoresReach r)
