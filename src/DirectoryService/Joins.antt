-- ===== src/DirectoryService/Joins.antt =====
-- How a user becomes a member of an organisation (`AddOrgMember` of internal/service/directory.go).
use auth_imp.Base.{
  subst, ◌++◌, some, String, ◌≡◌, refl, sym, inl, inr, ◌↔◌, false, List, [], ◌∷◌, any, ◌==◌,
  if◌then◌else◌, arith, eq_iff, Option-cases,
}
use auth_imp.Errors.{Result, Result-cases, ok}
use auth_imp.Dict
use auth_imp.Dict.{get-put, dict_laws}
use auth_imp.Model.{User, UserOrgRelation, AddOrgMemberRequest, Organization}
use auth_imp.UserStore
use auth_imp.UserStore.{MemoryStore}
use auth_imp.Directory.Membership.{rows, append_row, rows-append_row}
use auth_imp.Directory.OrgStore
use auth_imp.Directory.OrgStore.{MemoryOrgStore}
use auth_imp.DirectoryService.{DirectoryService, add_org_member}

-- The relation that a request asks for: with the role `member` if it names none.
abbrev pub asked_relation : String → AddOrgMemberRequest → UserOrgRelation
asked_relation org_id req = record {
  user_id = req.user_id;
  org_id = org_id;
  role = if req.role == "" then "member" else req.role;
  is_primary = req.is_primary;
}

-- A relation has joined: it is the answer, it comes behind the organisation's members of before and
-- behind its user's organisations of before, and no other list and no user has changed.
pub record IsJoined (rel : UserOrgRelation) (rels : List UserOrgRelation)
    (p : Result UserOrgRelation × DirectoryService) (s : DirectoryService) : Type 0 where
  pub answered : p.0 ≡ ok rel
  pub before : OrgStore.list_members rel.org_id s.org_store ≡ ok rels
  pub members :
      (id : String)
      → OrgStore.list_members id p.1.org_store
        ≡ (if id == rel.org_id then ok (rels ++ rel ∷ []) else OrgStore.list_members id s.org_store)
  pub of_users :
      (id : String)
      → OrgStore.get_user_orgs id p.1.org_store ≡ (
          if id == rel.user_id
          then OrgStore.get_user_orgs id s.org_store ++ rel ∷ []
          else OrgStore.get_user_orgs id s.org_store)
  pub users_kept : p.1.user_store ≡ s.user_store

module _ (org_id : String) (req : AddOrgMemberRequest) (s : DirectoryService) where
  -- A call that has an answer met a user, an organisation, and nobody of the user among its members.
  add_org_member_given :
      (rel : UserOrgRelation)
      → (add_org_member org_id req s).0 ≡ ok rel
      → ((u : User) × (UserStore.get_by_id req.user_id s.user_store ≡ ok u))
        × ((o : Organization) × (Dict.get s.org_store.orgs org_id ≡ some o))
        × (any (λ r. r.user_id == req.user_id) (rows s.org_store.members org_id) ≡ false)
  unfolding add_org_member OrgStore.add_member
  add_org_member_given rel h = elim (Result-cases (UserStore.get_by_id req.user_id s.user_store)) [
    | inl (u, f) ↦ elim (Option-cases (Dict.get s.org_store.orgs org_id)) [
      | inl o ↦ absurd (ground (arith, f, o, h))
      | inr (org, o) ↦ ((u, f), (org, o), ground (arith, f, o, h))
    ]
    | inr (inl (_, f)) ↦ absurd (ground (arith, f, h))
    | inr (inr f) ↦ absurd (ground (arith, f, h))
  ]

  abbrev joined_store : MemoryOrgStore
  joined_store =
      let rel = asked_relation org_id req in
      record s.org_store {
        members = append_row s.org_store.members org_id rel;
        user_orgs = append_row s.org_store.user_orgs req.user_id rel;
      }

  add_org_member_done :
      (u : User) (o : Organization)
      → UserStore.get_by_id req.user_id s.user_store ≡ ok u
      → Dict.get s.org_store.orgs org_id ≡ some o
      → any (λ r. r.user_id == req.user_id) (rows s.org_store.members org_id) ≡ false
      → add_org_member org_id req s
        ≡ (ok (asked_relation org_id req), record s { org_store = joined_store })
  unfolding add_org_member OrgStore.add_member
  add_org_member_done u o f there apart = ground (arith, f, there, apart)

  joined_store-IsJoined :
      (o : Organization)
      → Dict.get s.org_store.orgs org_id ≡ some o
      → IsJoined
          (asked_relation org_id req)
          (rows s.org_store.members org_id)
          (ok (asked_relation org_id req), record s { org_store = joined_store })
          s
  unfolding OrgStore.list_members OrgStore.get_user_orgs
  joined_store-IsJoined o there =
      let rel = asked_relation org_id req in
      let members = rows-append_row s.org_store.members org_id rel in
      let of_users = rows-append_row s.org_store.user_orgs req.user_id rel in
      record {
        answered = refl;
        before = ground (arith, there);
        members = λ id. ground (arith, there, members id, eq_iff org_id id, eq_iff id org_id);
        of_users = λ id. ground (arith, of_users id, eq_iff req.user_id id, eq_iff id req.user_id);
        users_kept = refl;
      }

-- The call joins a user to an organisation, with the role `member` if the request has none, exactly
-- when the user is found, the organisation lists its members, and the user is not among them. The
-- relation is then the answer and is stored as the last of the organisation's members and of the
-- user's organisations; the members of other organisations, the organisations of other users, and
-- the users stay as they were.
pub add_org_member_iff :
    (org_id : String) (req : AddOrgMemberRequest) (s : DirectoryService)
    → ((rels : List UserOrgRelation) × IsJoined
          (asked_relation org_id req)
          rels
          (add_org_member org_id req s)
          s)
      ↔ ((u : User) × (UserStore.get_by_id req.user_id s.user_store ≡ ok u))
        × ((rels : List UserOrgRelation) × (OrgStore.list_members org_id s.org_store ≡ ok rels)
            × (any (λ r. r.user_id == req.user_id) rels ≡ false))
unfolding OrgStore.list_members
add_org_member_iff org_id req s = (
  (λ (rels, h).
      let (user, (o, there), apart) = add_org_member_given org_id req s _ h.answered in
      (user, (rows s.org_store.members org_id, ground (arith, there), apart))),
  λ ((u, f), (rels, listed, apart)). elim (Option-cases (Dict.get s.org_store.orgs org_id)) [
    | inl o ↦ absurd (ground (arith, o, listed))
    | inr (o, there) ↦ (
      rows s.org_store.members org_id,
      subst (λ p. IsJoined (asked_relation org_id req) (rows s.org_store.members org_id) p s)
          (sym
            (add_org_member_done org_id req s u o f there (ground (arith, there, listed, apart))))
          (joined_store-IsJoined org_id req s o there),
    )
  ],
)
