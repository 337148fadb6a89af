-- ===== src/Directory/OrgStore/Members.antt =====
-- The membership operations of the organisation store, as `ListMembers` and `GetUserOrgs` show
-- them afterwards.
use auth_imp.Base.{
  String, ◌≡◌, ◌↔◌, some, false, arith, inl, inr, eq_iff, eq_refl, Option-cases, ◌==◌, any, In,
  List, [], ◌∷◌, ◌++◌, select, select_none, any-snoc, if◌then◌else◌,
}
use auth_imp.Errors.{Error, ok, err, panic}
use auth_imp.Dict
use auth_imp.Dict.{get-put, get-remove}
use auth_imp.Model.{Organization, UserOrgRelation}
use auth_imp.Directory.Membership.{rows, append_row, rows-append_row}
use auth_imp.Directory.Membership.Mirror.{select-drop_each, drop-append, fresh_mirror}
use auth_imp.Directory.Membership.Keyed.{In-rows_iff}
use auth_imp.Directory.OrgStore.{
  MemoryOrgStore, org_of, user_of, delete, add_member, remove_member, list_members, get_user_orgs,
  remove_user_org_relation,
}
use auth_imp.Directory.OrgStore.Invariant.{IsOrgStore}

module _ (s : MemoryOrgStore) (h : IsOrgStore s) where
  listed_of_row :
      (o : String) (r : UserOrgRelation)
      → In r (rows s.members o)
      → list_members o s ≡ ok (rows s.members o)
  unfolding list_members
  listed_of_row o r m = elim (Option-cases (Dict.get s.orgs o)) [
    | inl missing ↦ absurd (h.rooted o r m missing)
    | inr (org, e) ↦ rw (e, list_members)
  ]

  row_of_listed :
      (o : String) (rels : List UserOrgRelation)
      → list_members o s ≡ ok rels
      → rels ≡ rows s.members o
  unfolding list_members
  row_of_listed o rels e = ground arith

  -- In a store with the organisation store's invariant, a relation is among those of a user
  -- exactly when its organisation is stored and lists it, and it is the user's.
  pub get_user_orgs_iff :
      (u : String) (r : UserOrgRelation)
      → In r (get_user_orgs u s) ↔ (
          ((rels : List UserOrgRelation) × (list_members r.org_id s ≡ ok rels) × In r rels)
          × (r.user_id ≡ u))
  unfolding get_user_orgs
  get_user_orgs_iff u r =
      let iff = In-rows_iff org_of user_of s.members s.user_orgs h.by_org h.by_user h.mirror u r in
      (
        (λ m.
            let (row, same) = iff.0 m in
            ((rows s.members r.org_id, listed_of_row r.org_id r row, row), same)),
        λ p.
            let (rels, listed, m) = p.0 in
            iff.1 (rw (row_of_listed r.org_id rels listed) at m, p.1),
      )

  module _ (rel : UserOrgRelation) where
    -- A successful call of `AddMember`, read back.
    added :
        (add_member rel s).0 ≡ ok tt
        → (any (λ r. r.user_id == rel.user_id) (rows s.members rel.org_id) ≡ false)
          × (add_member rel s ≡ (
            ok tt,
            record s {
              members = append_row s.members rel.org_id rel;
              user_orgs = append_row s.user_orgs rel.user_id rel;
            },
          ))
    unfolding add_member
    added e = ground arith

    -- An added member stands last in the list of the organisation and last in that of the user,
    -- and no other list changes.
    pub add_member_effect :
        (add_member rel s).0 ≡ ok tt
        → (o u : String)
        → let t = (add_member rel s).1 in
          (rows t.members o
            ≡ (if rel.org_id == o then rows s.members o ++ rel ∷ [] else rows s.members o))
          × (get_user_orgs u t
              ≡ (if rel.user_id == u then get_user_orgs u s ++ rel ∷ [] else get_user_orgs u s))
    unfolding get_user_orgs
    add_member_effect e o u =
        rw (added e).1 (
          rows-append_row s.members rel.org_id rel o,
          rows-append_row s.user_orgs rel.user_id rel u,
        )

    -- Adding a member is refused exactly where the list of the organisation is refused, or has the
    -- user already.
    pub add_member_verdict : (add_member rel s).0 ≡ elim (list_members rel.org_id s) [
      | ok rels ↦
          if any (λ r. r.user_id == rel.user_id) rels then err Error.member_exists else ok tt
      | err e ↦ err e
      | panic ↦ panic
    ]
    unfolding add_member list_members
    add_member_verdict = ground arith

    -- In a store with the organisation store's invariant, after a relation was added, its removal
    -- succeeds and gives back the members of every organisation and the relations of every user.
    pub remove_member-add_member :
        (add_member rel s).0 ≡ ok tt
        → (o u : String)
        → let t = (remove_member rel.org_id rel.user_id (add_member rel s).1).1 in
          ((remove_member rel.org_id rel.user_id (add_member rel s).1).0 ≡ ok tt)
          × (rows t.members o ≡ rows s.members o)
          × (get_user_orgs u t ≡ get_user_orgs u s)
    unfolding remove_member remove_user_org_relation get_user_orgs
    remove_member-add_member e o u =
        let (fresh, done) = added e in
        let here =
          any-snoc (λ r. r.user_id == rel.user_id) (rows s.members rel.org_id) rel
            (eq_refl rel.user_id) in
        let listed = rows-append_row s.members rel.org_id rel rel.org_id in
        let apart =
          fresh_mirror org_of user_of s.members s.user_orgs h.mirror rel.org_id rel.user_id fresh in
        rw done (
          ground (
            arith,
            here,
            listed,
            eq_refl rel.org_id,
            drop-append user_of s.members rel.org_id rel fresh o,
            drop-append org_of s.user_orgs rel.user_id rel apart u,
          ))

  -- In a store with the organisation store's invariant, a stored organisation that is deleted
  -- lists nobody, no user has a relation to it any more, and a user's relations to another
  -- organisation are as they were.
  pub delete_org_effect :
      (id : String) (org : Organization)
      → Dict.get s.orgs id ≡ some org
      → (u o : String)
      → let t = (delete id s).1 in
        (list_members id t ≡ err Error.org_not_found)
        × (select (λ r. r.org_id == o) (get_user_orgs u t)
            ≡ (if id == o then [] else select (λ r. r.org_id == o) (get_user_orgs u s)))
  unfolding delete list_members get_user_orgs
  delete_org_effect id org stored u o =
      rw (stored, delete)
        (
          ground (arith, get-remove s.orgs id id, eq_refl id),
          ground (
            arith,
            select-drop_each org_of user_of id (rows s.members id) s.user_orgs u o,
            eq_iff id o,
            h.mirror.mirrored id u,
            select_none (λ r. r.user_id == u) (rows s.members id),
          ),
        )
