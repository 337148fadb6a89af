-- ===== src/DirectoryService/Edits.antt =====
-- `UpdateOrg`, `DeleteOrg`, `UpdateGroup` and `DeleteGroup` change nothing where they fail.
use auth_imp.Base.{String, ◌≡◌, refl, inl, inr, some, Option-cases, eq_refl}
use auth_imp.Dict
use auth_imp.Dict.{dict_laws}
use auth_imp.Model.{Time, Organization, Group, UpdateOrgRequest, UpdateGroupRequest}
use auth_imp.Directory.OrgStore
use auth_imp.Directory.OrgStore.{MemoryOrgStore}
use auth_imp.Directory.GroupStore
use auth_imp.Directory.GroupStore.{MemoryGroupStore}
use auth_imp.DirectoryService.{
  DirectoryService, org_after, requested_org, update_org, delete_org, group_after, requested_group,
  update_group, delete_group,
}
use auth_imp.DirectoryService.Refusals.{IsQuiet, with_orgs-IsQuiet, with_groups-IsQuiet}

org_update :
    (now : Time) (org : Organization) (s : MemoryOrgStore)
    → IsQuiet s (org_after org.id (OrgStore.update now org s))
unfolding OrgStore.update OrgStore.get_by_id
org_update now org s = elim (Option-cases (Dict.get s.orgs org.id)) [
  | inl e ↦ rw (e, OrgStore.update) refl
  | inr (old, e) ↦
      let there : Dict.get (Dict.put s.orgs org.id (OrgStore.overlay now org old)) org.id
          ≡ some (OrgStore.overlay now org old) =
        simp (dict_laws, eq_refl) in
      rw (e, OrgStore.update, OrgStore.get_by_id, there) tt
]

org_delete : (id : String) (s : MemoryOrgStore) → IsQuiet s (OrgStore.delete id s)
unfolding OrgStore.delete
org_delete id s = elim (Option-cases (Dict.get s.orgs id)) [
  | inl e ↦ rw (e, OrgStore.delete) refl
  | inr (_, e) ↦ rw (e, OrgStore.delete) tt
]

group_update :
    (now : Time) (group : Group) (s : MemoryGroupStore)
    → IsQuiet s (group_after group.id (GroupStore.update now group s))
unfolding GroupStore.update GroupStore.get_by_id
group_update now group s = elim (Option-cases (Dict.get s.groups group.id)) [
  | inl e ↦ rw (e, GroupStore.update) refl
  | inr (old, e) ↦
      let there : Dict.get (Dict.put s.groups group.id (GroupStore.overlay now group old)) group.id
          ≡ some (GroupStore.overlay now group old) =
        simp (dict_laws, eq_refl) in
      rw (e, GroupStore.update, GroupStore.get_by_id, there) tt
]

group_delete : (id : String) (s : MemoryGroupStore) → IsQuiet s (GroupStore.delete id s)
unfolding GroupStore.delete
group_delete id s = elim (Option-cases (Dict.get s.groups id)) [
  | inl e ↦ rw (e, GroupStore.delete) refl
  | inr (_, e) ↦ rw (e, GroupStore.delete) tt
]

module _ (s : DirectoryService) where
  pub update_org-IsQuiet :
      (now : Time) (id : String) (req : UpdateOrgRequest) → IsQuiet s (update_org now id req s)
  unfolding update_org
  update_org-IsQuiet now id req =
      with_orgs-IsQuiet s _ (org_update now (requested_org id req) s.org_store)

  pub delete_org-IsQuiet : (id : String) → IsQuiet s (delete_org id s)
  unfolding delete_org
  delete_org-IsQuiet id = with_orgs-IsQuiet s _ (org_delete id s.org_store)

  pub update_group-IsQuiet :
      (now : Time) (id : String) (req : UpdateGroupRequest) → IsQuiet s (update_group now id req s)
  unfolding update_group
  update_group-IsQuiet now id req =
      with_groups-IsQuiet s _ (group_update now (requested_group id req) s.group_store)

  pub delete_group-IsQuiet : (id : String) → IsQuiet s (delete_group id s)
  unfolding delete_group
  delete_group-IsQuiet id = with_groups-IsQuiet s _ (group_delete id s.group_store)
