-- ===== src/DirectoryService/Refusals.antt =====
-- Calls that fail leave every store as it was.
use auth_imp.Base.{String, ◌≡◌, refl, ap, inl, inr, Bool-cases, Option-cases, ◌==◌, any}
use auth_imp.Errors.{Result, Result-cases, ok, err, panic}
use auth_imp.Dict
use auth_imp.Model.{
  Time, Organization, Group, UserOrgRelation, GroupMember, CreateOrgRequest, AddOrgMemberRequest,
  CreateGroupRequest, AddGroupMemberRequest,
}
use auth_imp.UserStore
use auth_imp.Directory.Membership.{rows}
use auth_imp.Directory.OrgStore
use auth_imp.Directory.OrgStore.{MemoryOrgStore}
use auth_imp.Directory.GroupStore
use auth_imp.Directory.GroupStore.{MemoryGroupStore}
use auth_imp.DirectoryService.{
  DirectoryService, with_orgs, with_groups, answering, new_org, new_relation, new_group, new_member,
  create_org, add_org_member, remove_org_member, create_group, add_group_member,
  remove_group_member,
}

-- Where the call returned no value, the state is the one before it.
abbrev pub IsQuiet : {A S : Type 0} → S → Result A × S → Type 0
IsQuiet s (ok _, t) = Unit {0}
IsQuiet s (err _, t) = t ≡ s
IsQuiet s (panic, t) = t ≡ s

module _ {A : Type 0} (s : DirectoryService) where
  pub with_orgs-IsQuiet :
      (p : Result A × MemoryOrgStore) → IsQuiet s.org_store p → IsQuiet s (with_orgs s p)
  with_orgs-IsQuiet (ok _, t) q = tt
  with_orgs-IsQuiet (err _, t) q = ap (λ store. record s { org_store = store }) q
  with_orgs-IsQuiet (panic, t) q = ap (λ store. record s { org_store = store }) q

  pub with_groups-IsQuiet :
      (p : Result A × MemoryGroupStore) → IsQuiet s.group_store p → IsQuiet s (with_groups s p)
  with_groups-IsQuiet (ok _, t) q = tt
  with_groups-IsQuiet (err _, t) q = ap (λ store. record s { group_store = store }) q
  with_groups-IsQuiet (panic, t) q = ap (λ store. record s { group_store = store }) q

answering-IsQuiet :
    {A B S : Type 0} (b : B) (s : S) (p : Result A × S)
    → IsQuiet s p
    → IsQuiet s (answering b p.0, p.1)
answering-IsQuiet b s (ok _, t) q = tt
answering-IsQuiet b s (err _, t) q = q
answering-IsQuiet b s (panic, t) q = q

org_create :
    (now : Time) (org : Organization) (s : MemoryOrgStore) → IsQuiet s (OrgStore.create now org s)
unfolding OrgStore.create OrgStore.store_new
org_create now org s = elim (Option-cases (Dict.get s.orgs org.id)) [
  | inr (_, e) ↦ rw (e, OrgStore.create) refl
  | inl e ↦ elim (Bool-cases (org.parent_id == "")) [
    | inl root ↦ rw (e, OrgStore.create, root) tt
    | inr child ↦ elim (Option-cases (Dict.get s.orgs org.parent_id)) [
      | inl p ↦ rw (e, OrgStore.create, child, p) refl
      | inr (_, p) ↦ rw (e, OrgStore.create, child, p) tt
    ]
  ]
]

org_add_member :
    (rel : UserOrgRelation) (s : MemoryOrgStore) → IsQuiet s (OrgStore.add_member rel s)
unfolding OrgStore.add_member
org_add_member rel s = elim (Option-cases (Dict.get s.orgs rel.org_id)) [
  | inl e ↦ rw (e, OrgStore.add_member) refl
  | inr (_, e) ↦
      elim (Bool-cases (any (λ r. r.user_id == rel.user_id) (rows s.members rel.org_id))) [
        | inl b ↦ rw (e, OrgStore.add_member, b) refl
        | inr b ↦ rw (e, OrgStore.add_member, b) tt
      ]
]

org_remove_member :
    (org_id user_id : String) (s : MemoryOrgStore)
    → IsQuiet s (OrgStore.remove_member org_id user_id s)
unfolding OrgStore.remove_member
org_remove_member org_id user_id s =
    elim (Bool-cases (any (λ r. r.user_id == user_id) (rows s.members org_id))) [
      | inl b ↦ rw (b, OrgStore.remove_member) tt
      | inr b ↦ rw (b, OrgStore.remove_member) refl
    ]

group_create :
    (now : Time) (g : Group) (s : MemoryGroupStore) → IsQuiet s (GroupStore.create now g s)
unfolding GroupStore.create
group_create now g s = elim (Option-cases (Dict.get s.groups g.id)) [
  | inr (_, e) ↦ rw (e, GroupStore.create) refl
  | inl e ↦ rw (e, GroupStore.create) tt
]

group_add_member :
    (now : Time) (m : GroupMember) (s : MemoryGroupStore)
    → IsQuiet s (GroupStore.add_member now m s)
unfolding GroupStore.add_member
group_add_member now m s = elim (Option-cases (Dict.get s.groups m.group_id)) [
  | inl e ↦ rw (e, GroupStore.add_member) refl
  | inr (_, e) ↦ elim (Bool-cases (any (λ r. r.user_id == m.user_id) (rows s.members m.group_id))) [
    | inl b ↦ rw (e, GroupStore.add_member, b) refl
    | inr b ↦ rw (e, GroupStore.add_member, b) tt
  ]
]

group_remove_member :
    (group_id user_id : String) (s : MemoryGroupStore)
    → IsQuiet s (GroupStore.remove_member group_id user_id s)
unfolding GroupStore.remove_member
group_remove_member group_id user_id s =
    elim (Bool-cases (any (λ r. r.user_id == user_id) (rows s.members group_id))) [
      | inl b ↦ rw (b, GroupStore.remove_member) tt
      | inr b ↦ rw (b, GroupStore.remove_member) refl
    ]

module _ (s : DirectoryService) where
  pub create_org-IsQuiet :
      (now : Time) (id : String) (req : CreateOrgRequest) → IsQuiet s (create_org now id req s)
  unfolding create_org
  create_org-IsQuiet now id req =
      with_orgs-IsQuiet s _ (org_create now (new_org id req) s.org_store)

  pub add_org_member-IsQuiet :
      (org_id : String) (req : AddOrgMemberRequest) → IsQuiet s (add_org_member org_id req s)
  unfolding add_org_member
  add_org_member-IsQuiet org_id req =
      elim (Result-cases (UserStore.get_by_id req.user_id s.user_store)) [
        | inl (_, e) ↦
            rw (e, add_org_member)
              (with_orgs-IsQuiet s _ (
                answering-IsQuiet (new_relation org_id req) s.org_store _
                  (org_add_member (new_relation org_id req) s.org_store)))
        | inr (inl (_, e)) ↦ rw (e, add_org_member) refl
        | inr (inr e) ↦ rw (e, add_org_member) refl
      ]

  pub remove_org_member-IsQuiet :
      (org_id user_id : String) → IsQuiet s (remove_org_member org_id user_id s)
  unfolding remove_org_member
  remove_org_member-IsQuiet org_id user_id =
      with_orgs-IsQuiet s _ (org_remove_member org_id user_id s.org_store)

  pub create_group-IsQuiet :
      (now : Time) (id : String) (req : CreateGroupRequest) → IsQuiet s (create_group now id req s)
  unfolding create_group
  create_group-IsQuiet now id req =
      with_groups-IsQuiet s _ (group_create now (new_group id req) s.group_store)

  pub add_group_member-IsQuiet :
      (now : Time) (group_id : String) (req : AddGroupMemberRequest)
      → IsQuiet s (add_group_member now group_id req s)
  unfolding add_group_member
  add_group_member-IsQuiet now group_id req =
      elim (Result-cases (UserStore.get_by_id req.user_id s.user_store)) [
        | inl (_, e) ↦
            rw (e, add_group_member)
              (with_groups-IsQuiet s _
                (group_add_member now (new_member group_id req) s.group_store))
        | inr (inl (_, e)) ↦ rw (e, add_group_member) refl
        | inr (inr e) ↦ rw (e, add_group_member) refl
      ]

  pub remove_group_member-IsQuiet :
      (group_id user_id : String) → IsQuiet s (remove_group_member group_id user_id s)
  unfolding remove_group_member
  remove_group_member-IsQuiet group_id user_id =
      with_groups-IsQuiet s _ (group_remove_member group_id user_id s.group_store)
