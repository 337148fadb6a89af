-- ===== src/Directory/GroupStore/Members.antt =====
-- The membership operations of the group store, as `ListMembers` and `GetUserGroups` show
-- them afterwards.
use auth_imp.Base.{
  String, ◌≡◌, ◌↔◌, some, false, arith, inl, inr, eq_iff, eq_refl, Option-cases, ◌==◌, any, In,
  List, [], ◌∷◌, ◌++◌, select, select_none, any-snoc, if◌then◌else◌,
}
use auth_imp.Errors.{Error, ok, err, panic}
use auth_imp.Dict
use auth_imp.Dict.{get-put, get-remove}
use auth_imp.Model.{Time, Group, GroupMember}
use auth_imp.Directory.Membership.{rows, append_row, rows-append_row}
use auth_imp.Directory.Membership.Mirror.{select-drop_each, drop-append, fresh_mirror}
use auth_imp.Directory.Membership.Keyed.{In-rows_iff}
use auth_imp.Directory.GroupStore.{
  MemoryGroupStore, group_of, user_of, joined, delete, add_member, remove_member, list_members,
  get_user_groups, remove_user_group_relation,
}
use auth_imp.Directory.GroupStore.Invariant.{IsGroupStore}

module _ (s : MemoryGroupStore) (h : IsGroupStore s) where
  listed_of_row :
      (o : String) (r : GroupMember)
      → In r (rows s.members o)
      → list_members o s ≡ ok (rows s.members o)
  unfolding list_members
  listed_of_row o r m = elim (Option-cases (Dict.get s.groups o)) [
    | inl missing ↦ absurd (h.rooted o r m missing)
    | inr (group, e) ↦ rw (e, list_members)
  ]

  row_of_listed :
      (o : String) (rels : List GroupMember) → list_members o s ≡ ok rels → rels ≡ rows s.members o
  unfolding list_members
  row_of_listed o rels e = ground arith

  -- In a store with the group store's invariant, a relation is among those of a user exactly when
  -- its group is stored and lists it, and it is the user's.
  pub get_user_groups_iff :
      (u : String) (r : GroupMember)
      → In r (get_user_groups u s) ↔ (
          ((rels : List GroupMember) × (list_members r.group_id s ≡ ok rels) × In r rels)
          × (r.user_id ≡ u))
  unfolding get_user_groups
  get_user_groups_iff u r =
      let iff =
        In-rows_iff group_of user_of s.members s.user_groups h.by_group h.by_user h.mirror u r in
      (
        (λ m.
            let (row, same) = iff.0 m in
            ((rows s.members r.group_id, listed_of_row r.group_id r row, row), same)),
        λ p.
            let (rels, listed, m) = p.0 in
            iff.1 (rw (row_of_listed r.group_id rels listed) at m, p.1),
      )

  module _ (now : Time) (rel : GroupMember) where
    -- A successful call of `AddMember`, read back.
    added :
        {m : GroupMember}
        → (add_member now rel s).0 ≡ ok m
        → (any (λ r. r.user_id == rel.user_id) (rows s.members rel.group_id) ≡ false)
          × (add_member now rel s ≡ (
            ok (joined now rel),
            record s {
              members = append_row s.members rel.group_id (joined now rel);
              user_groups = append_row s.user_groups rel.user_id (joined now rel);
            },
          ))
    unfolding add_member
    added e = ground arith

    -- An added member stands last in the list of the group and last in that of the user,
    -- and no other list changes.
    pub join_effect :
        (m : GroupMember)
        → (add_member now rel s).0 ≡ ok m
        → (o u : String)
        → let t = (add_member now rel s).1 in
          (rows t.members o ≡ (
            if rel.group_id == o
            then rows s.members o ++ joined now rel ∷ []
            else rows s.members o))
          × (get_user_groups u t ≡ (
              if rel.user_id == u
              then get_user_groups u s ++ joined now rel ∷ []
              else get_user_groups u s))
    unfolding get_user_groups
    join_effect m e o u = rw (added e).1 (
      rows-append_row s.members rel.group_id (joined now rel) o,
      rows-append_row s.user_groups rel.user_id (joined now rel) u,
    )

    -- Adding a member is refused exactly where the list of the group is refused, or has the
    -- user already.
    pub join_verdict : (add_member now rel s).0 ≡ elim (list_members rel.group_id s) [
      | ok rels ↦
          if any (λ r. r.user_id == rel.user_id) rels
          then err Error.member_exists
          else ok (joined now rel)
      | err e ↦ err e
      | panic ↦ panic
    ]
    unfolding add_member list_members
    join_verdict = ground arith

    -- In a store with the group store's invariant, after a relation was added, its removal
    -- succeeds and gives back the members of every group and the relations of every user.
    pub remove_member-join :
        (m : GroupMember)
        → (add_member now rel s).0 ≡ ok m
        → (o u : String)
        → let t = (remove_member rel.group_id rel.user_id (add_member now rel s).1).1 in
          ((remove_member rel.group_id rel.user_id (add_member now rel s).1).0 ≡ ok tt)
          × (rows t.members o ≡ rows s.members o)
          × (get_user_groups u t ≡ get_user_groups u s)
    unfolding remove_member remove_user_group_relation get_user_groups
    remove_member-join m e o u =
        let (fresh, done) = added e in
        let here =
          any-snoc (λ r. r.user_id == rel.user_id) (rows s.members rel.group_id) (joined now rel)
            (eq_refl rel.user_id) in
        let listed = rows-append_row s.members rel.group_id (joined now rel) rel.group_id in
        let apart =
          fresh_mirror group_of user_of s.members s.user_groups h.mirror rel.group_id rel.user_id
            fresh in
        rw done (
          ground (
            arith,
            here,
            listed,
            eq_refl rel.group_id,
            drop-append user_of s.members rel.group_id (joined now rel) fresh o,
            drop-append group_of s.user_groups rel.user_id (joined now rel) apart u,
          ))

  -- In a store with the group store's invariant, a stored group that is deleted lists nobody, no
  -- user has a relation to it any more, and a user's relations to another group are as they were.
  pub delete_group_effect :
      (id : String) (group : Group)
      → Dict.get s.groups id ≡ some group
      → (u o : String)
      → let t = (delete id s).1 in
        (list_members id t ≡ err Error.group_not_found)
        × (select (λ r. r.group_id == o) (get_user_groups u t)
            ≡ (if id == o then [] else select (λ r. r.group_id == o) (get_user_groups u s)))
  unfolding delete list_members get_user_groups
  delete_group_effect id group stored u o =
      rw (stored, delete)
        (
          ground (arith, get-remove s.groups id id, eq_refl id),
          ground (
            arith,
            select-drop_each group_of user_of id (rows s.members id) s.user_groups u o,
            eq_iff id o,
            h.mirror.mirrored id u,
            select_none (λ r. r.user_id == u) (rows s.members id),
          ),
        )
