-- ===== src/Tests/Orgs.antt =====
-- The organisation store (internal/directory/memory_store.go) at two organisations.
use auth_imp.Base.{
  select, if◌then◌else◌, String, Bool, ◌≡◌, ◌≢◌, ◌↔◌, some, List, In, [], ◌∷◌, ◌==◌, refl, arith,
  eq_iff,
}
use auth_imp.Errors.{Error, ok, err}
use auth_imp.Dict
use auth_imp.Model.{Organization, UserOrgRelation}
use auth_imp.Directory.Membership.{rows, append_row}
use auth_imp.Directory.OrgStore
use auth_imp.Directory.OrgStore.{MemoryOrgStore}
use auth_imp.Directory.OrgStore.Invariant.{
  IsOrgStore, Reach, start, next, create_step, add_step, Reach-IsOrgStore,
}
use auth_imp.Directory.OrgStore.Members.{
  get_user_orgs_iff, remove_member-add_member, delete_org_effect,
}
use auth_imp.Directory.OrgStore.Paths.{update_moves_without_path}

abbrev org : String → String → Organization
org id parent_id = record {
  id = id;
  name = "an organisation";
  parent_id = parent_id;
  path = "";
  external_id = "";
  source_system = "";
  created_at = 0;
  updated_at = 0;
}

abbrev rel : UserOrgRelation
rel = record { user_id = "u1"; org_id = "o1"; role = "admin"; is_primary = Bool.true }

abbrev one_org : MemoryOrgStore
one_org = (OrgStore.create 1 (org "o1" "") OrgStore.new).1

abbrev two_orgs : MemoryOrgStore
two_orgs = (OrgStore.create 2 (org "o2" "o1") one_org).1

abbrev pub with_member : MemoryOrgStore
with_member = (OrgStore.add_member rel two_orgs).1

with_member-Reach : Reach with_member
with_member-Reach =
    next
      (next (next start (create_step 1 (org "o1" "") OrgStore.new))
        (create_step 2 (org "o2" "o1") one_org))
      (add_step rel two_orgs)

Reach-IsOrgStore_example : IsOrgStore with_member
Reach-IsOrgStore_example = Reach-IsOrgStore with_member-Reach

with_member-IsOrgStore : IsOrgStore with_member
with_member-IsOrgStore = Reach-IsOrgStore with_member-Reach

two_orgs-IsOrgStore : IsOrgStore two_orgs
two_orgs-IsOrgStore = Reach-IsOrgStore (
    next (next start (create_step 1 (org "o1" "") OrgStore.new))
      (create_step 2 (org "o2" "o1") one_org))

get_user_orgs_iff_example : In rel (OrgStore.get_user_orgs "u1" with_member) ↔ (
    ((rels : List UserOrgRelation) × (OrgStore.list_members "o1" with_member ≡ ok rels)
      × In rel rels)
    × (rel.user_id ≡ "u1"))
get_user_orgs_iff_example = get_user_orgs_iff with_member with_member-IsOrgStore "u1" rel

rel_listed : OrgStore.list_members "o1" with_member ≡ ok (rel ∷ [])
unfolding OrgStore.create OrgStore.store_new OrgStore.add_member OrgStore.list_members rows
    append_row Dict.get Dict.put Dict.empty
rel_listed = refl

abbrev stored_root : Organization
stored_root = record (org "o1" "") { path = "/o1"; created_at = 1; updated_at = 1 }

abbrev stored_child : Organization
stored_child = record (org "o2" "o1") { path = "/o1/o2"; created_at = 2; updated_at = 2 }

root_stored : Dict.get with_member.orgs "o1" ≡ some stored_root
unfolding OrgStore.create OrgStore.store_new OrgStore.add_member rows append_row Dict.get Dict.put
    Dict.empty
root_stored = refl

rel_added : (OrgStore.add_member rel two_orgs).0 ≡ ok tt
unfolding OrgStore.create OrgStore.store_new OrgStore.add_member rows append_row Dict.get Dict.put
    Dict.empty
rel_added = refl

has_parent : (o : Organization) → (o.parent_id == "") ≡ Bool.false → o.parent_id ≢ ""
has_parent o e h = ground (arith, eq_iff o.parent_id "", e, h)

child_created : (OrgStore.create 2 (org "o2" "o1") one_org).0 ≡ ok stored_child
unfolding OrgStore.create OrgStore.store_new Dict.get Dict.put Dict.empty
child_created = refl

-- The root is put under an organisation that is not there.
update_moves_without_path_example :
    ((OrgStore.update 3 (org "o1" "nowhere") with_member).0 ≡ ok tt)
    × ((moved : Organization) × (OrgStore.get_by_id "o1"
            (OrgStore.update 3 (org "o1" "nowhere") with_member).1
          ≡ ok moved)
        × (moved.parent_id ≡ "nowhere")
        × (moved.path ≡ stored_root.path))
update_moves_without_path_example =
    update_moves_without_path 3 (org "o1" "nowhere") with_member stored_root
      (has_parent (org "o1" "nowhere") refl) root_stored

remove_member-add_member_example :
    let t = (OrgStore.remove_member "o1" "u1" (OrgStore.add_member rel two_orgs).1).1 in
    ((OrgStore.remove_member "o1" "u1" (OrgStore.add_member rel two_orgs).1).0 ≡ ok tt)
    × (rows t.members "o1" ≡ rows two_orgs.members "o1")
    × (OrgStore.get_user_orgs "u1" t ≡ OrgStore.get_user_orgs "u1" two_orgs)
remove_member-add_member_example =
    remove_member-add_member two_orgs two_orgs-IsOrgStore rel rel_added "o1" "u1"

delete_org_effect_example :
    let t = (OrgStore.delete "o1" with_member).1 in
    (OrgStore.list_members "o1" t ≡ err Error.org_not_found)
    × (select (λ r. r.org_id == "o1") (OrgStore.get_user_orgs "u1" t) ≡ (
        if "o1" == "o1"
        then []
        else select (λ r. r.org_id == "o1") (OrgStore.get_user_orgs "u1" with_member)))
delete_org_effect_example =
    delete_org_effect with_member with_member-IsOrgStore "o1" stored_root root_stored "u1" "o1"
