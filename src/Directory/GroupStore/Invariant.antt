-- ===== src/Directory/GroupStore/Invariant.antt =====
-- The invariant of the group store: each group stands under its own id, the two
-- tables of relations mirror each other with one relation at most between a group and a
-- user, each relation stands under the keys that it names, and only stored groups have
-- members. Each operation keeps it; the operations are the steps of a relation.
use auth_imp.Base.{
  String, ◌≡◌, ◌≢◌, refl, none, some, arith, inl, inr, eq_iff, Option-cases, Bool-cases, text_cases,
  subst, ◌==◌, any, In, [],
}
use auth_imp.Dict
use auth_imp.Dict.{get-put, get-remove, get-empty}
use auth_imp.Model.{Time, Group, GroupMember}
use auth_imp.Directory.Membership.{rows, append_row, rows-remove, rows-empty}
use auth_imp.Directory.Membership.Mirror.{
  IsMirror, append-IsMirror, drop-IsMirror, delete-IsMirror, empty-IsMirror,
}
use auth_imp.Directory.Membership.Keyed.{
  IsKeyed, empty-IsKeyed, append-IsKeyed, In-append_row_ne, In-drop_rows, drop_rows-IsKeyed,
  remove-IsKeyed, drop_each-IsKeyed,
}
use auth_imp.Directory.GroupStore.{
  MemoryGroupStore, new, group_of, user_of, create, update, delete, add_member, remove_member,
  remove_user_group_relation, joined,
}

pub record IsGroupStore (s : MemoryGroupStore) : Type 0 where
  pub keyed : (i : String) (o : Group) → Dict.get s.groups i ≡ some o → o.id ≡ i
  pub mirror : IsMirror group_of user_of s.members s.user_groups
  pub by_group : IsKeyed group_of s.members
  pub by_user : IsKeyed user_of s.user_groups
  pub rooted : (i : String) (r : GroupMember) → In r (rows s.members i) → Dict.get s.groups i ≢ none

pub new-IsGroupStore : IsGroupStore new
new-IsGroupStore = record {
  keyed = λ i o e. absurd (ground (arith, e, get-empty {V = Group} i));
  mirror = empty-IsMirror group_of user_of;
  by_group = empty-IsKeyed group_of;
  by_user = empty-IsKeyed user_of;
  rooted = λ i r m. let m' : In r [] = rw (rows-empty i) at m in elim m' [ ];
}

module _ (s : MemoryGroupStore) (h : IsGroupStore s) where
  -- An group is put under its own id, and the relations stay.
  put_group-IsGroupStore :
      (i : String) (o : Group)
      → o.id ≡ i
      → IsGroupStore (record s { groups = Dict.put s.groups i o })
  put_group-IsGroupStore i o own = record {
    keyed = λ j v e. ground (arith, e, h.keyed j v, get-put s.groups i o j, eq_iff i j, own);
    mirror = h.mirror;
    by_group = h.by_group;
    by_user = h.by_user;
    rooted = λ j r m e. ground (arith, e, h.rooted j r m, get-put s.groups i o j);
  }

  added_rooted :
      (rel : GroupMember)
      → Dict.get s.groups rel.group_id ≢ none
      → (i : String) (r : GroupMember) → In r (rows (append_row s.members rel.group_id rel) i)
      → Dict.get s.groups i ≢ none
  added_rooted rel known i r m = elim (text_cases rel.group_id i) [
    | inl same ↦ subst (λ k. Dict.get s.groups k ≢ none) same.1 known
    | inr other ↦ h.rooted i r (In-append_row_ne s.members rel.group_id rel i r other.0 m)
  ]

  pub create-IsGroupStore : (now : Time) (group : Group) → IsGroupStore (create now group s).1
  unfolding create
  create-IsGroupStore now group = elim (Option-cases (Dict.get s.groups group.id)) [
    | inr (o, e) ↦ rw (e, create) h
    | inl free ↦ rw (free, create) (put_group-IsGroupStore group.id _ refl)
  ]

  pub update-IsGroupStore : (now : Time) (group : Group) → IsGroupStore (update now group s).1
  unfolding update
  update-IsGroupStore now group = elim (Option-cases (Dict.get s.groups group.id)) [
    | inl missing ↦ rw (missing, update) h
    | inr (old, e) ↦ rw (e, update) (put_group-IsGroupStore group.id _ (h.keyed group.id old e))
  ]

  pub delete-IsGroupStore : (id : String) → IsGroupStore (delete id s).1
  unfolding delete
  delete-IsGroupStore id = elim (Option-cases (Dict.get s.groups id)) [
    | inl missing ↦ rw (missing, delete) h
    | inr (old, e) ↦
        rw (e, delete)
          (record {
            keyed = λ j v f. ground (arith, f, h.keyed j v, get-remove s.groups id j);
            mirror = delete-IsMirror group_of user_of s.members s.user_groups h.mirror id;
            by_group = remove-IsKeyed group_of s.members h.by_group id;
            by_user =
                drop_each-IsKeyed group_of user_of user_of id (rows s.members id) s.user_groups
                  h.by_user;
            rooted = λ j r m f. elim (text_cases id j) [
              | inl same ↦
                  let m' : In r [] = rw (rows-remove s.members id j, same.0) at m in elim m' [ ]
              | inr other ↦
                  h.rooted j r (rw (rows-remove s.members id j, other.0) at m)
                    (ground (arith, f, get-remove s.groups id j, other.0))
            ];
          })
  ]

  pub add_member-IsGroupStore :
      (now : Time) (rel : GroupMember) → IsGroupStore (add_member now rel s).1
  unfolding add_member
  add_member-IsGroupStore now rel = elim (Option-cases (Dict.get s.groups rel.group_id)) [
    | inl missing ↦ rw (missing, add_member) h
    | inr (group, e) ↦
        elim (Bool-cases (any (λ r. r.user_id == rel.user_id) (rows s.members rel.group_id))) [
          | inl exists ↦ rw (e, exists, add_member) h
          | inr fresh ↦
              rw (e, fresh, add_member)
                (record {
                  keyed = h.keyed;
                  mirror =
                      append-IsMirror group_of user_of s.members s.user_groups h.mirror
                        (joined now rel) fresh;
                  by_group = append-IsKeyed group_of s.members h.by_group (joined now rel);
                  by_user = append-IsKeyed user_of s.user_groups h.by_user (joined now rel);
                  rooted = added_rooted (joined now rel) (λ f. ground (arith, e, f));
                })
        ]
  ]

  pub remove_member-IsGroupStore :
      (group_id user_id : String) → IsGroupStore (remove_member group_id user_id s).1
  unfolding remove_member remove_user_group_relation
  remove_member-IsGroupStore group_id user_id =
      elim (Bool-cases (any (λ r. r.user_id == user_id) (rows s.members group_id))) [
        | inr absent ↦ rw (absent, remove_member) h
        | inl present ↦
            rw (present, remove_member)
              (record {
                keyed = h.keyed;
                mirror =
                    drop-IsMirror group_of user_of s.members s.user_groups h.mirror group_id
                      user_id;
                by_group = drop_rows-IsKeyed group_of s.members h.by_group user_of group_id user_id;
                by_user =
                    drop_rows-IsKeyed user_of s.user_groups h.by_user group_of user_id group_id;
                rooted =
                    λ j r m. h.rooted j r (In-drop_rows user_of group_id user_id s.members j r m);
              })
      ]

-- One call of the store that may change it, with any argument.
pub data Step : MemoryGroupStore → MemoryGroupStore → Type 0 where
  create_step : (now : Time) (group : Group) (s : MemoryGroupStore) → Step s (create now group s).1
  update_step : (now : Time) (group : Group) (s : MemoryGroupStore) → Step s (update now group s).1
  delete_step : (id : String) (s : MemoryGroupStore) → Step s (delete id s).1
  add_step :
      (now : Time) (rel : GroupMember) (s : MemoryGroupStore) → Step s (add_member now rel s).1
  remove_step :
      (group_id user_id : String) (s : MemoryGroupStore)
      → Step s (remove_member group_id user_id s).1

pub data Reach : MemoryGroupStore → Type 0 where
  start : Reach new
  next : {s t : MemoryGroupStore} → Reach s → Step s t → Reach t

Step-IsGroupStore : {s t : MemoryGroupStore} → Step s t → IsGroupStore s → IsGroupStore t
Step-IsGroupStore (create_step now group s) h = create-IsGroupStore s h now group
Step-IsGroupStore (update_step now group s) h = update-IsGroupStore s h now group
Step-IsGroupStore (delete_step id s) h = delete-IsGroupStore s h id
Step-IsGroupStore (add_step now rel s) h = add_member-IsGroupStore s h now rel
Step-IsGroupStore (remove_step group_id user_id s) h =
    remove_member-IsGroupStore s h group_id user_id

-- In every store that the operations reach from the empty one, a group is stored under its own id,
-- the relations between a group and a user are the same and in the same order in the table by
-- group and in the table by user, and at most one, each relation stands under its own group and
-- its own user, and only stored groups have members.
pub Reach-IsGroupStore : {s : MemoryGroupStore} → Reach s → IsGroupStore s
Reach-IsGroupStore start = new-IsGroupStore
Reach-IsGroupStore (next r step) = Step-IsGroupStore step (Reach-IsGroupStore r)
