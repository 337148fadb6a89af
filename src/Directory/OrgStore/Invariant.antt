-- ===== src/Directory/OrgStore/Invariant.antt =====
-- The invariant of the organisation store: each organisation stands under its own id, the two
-- tables of relations mirror each other with one relation at most between an organisation and a
-- user, each relation stands under the keys that it names, and only stored organisations have
-- members. Each operation keeps it; the operations are the steps of a relation.
use auth_imp.Base.{
  String, ◌≡◌, ◌≢◌, refl, none, some, arith, inl, inr, eq_iff, Option-cases, Bool-cases, text_cases,
  subst, ◌==◌, any, In, [],
}
use auth_imp.Dict
use auth_imp.Dict.{get-put, get-remove, get-empty}
use auth_imp.Model.{Time, Organization, UserOrgRelation}
use auth_imp.Directory.Membership.{rows, append_row, rows-remove, rows-empty}
use auth_imp.Directory.Membership.Mirror.{
  IsMirror, append-IsMirror, drop-IsMirror, delete-IsMirror, empty-IsMirror,
}
use auth_imp.Directory.Membership.Keyed.{
  IsKeyed, empty-IsKeyed, append-IsKeyed, In-append_row_ne, In-drop_rows, drop_rows-IsKeyed,
  remove-IsKeyed, drop_each-IsKeyed,
}
use auth_imp.Directory.OrgStore.{
  MemoryOrgStore, new, org_of, user_of, create, update, delete, add_member, remove_member,
  remove_user_org_relation,
}

pub record IsOrgStore (s : MemoryOrgStore) : Type 0 where
  pub keyed : (i : String) (o : Organization) → Dict.get s.orgs i ≡ some o → o.id ≡ i
  pub mirror : IsMirror org_of user_of s.members s.user_orgs
  pub by_org : IsKeyed org_of s.members
  pub by_user : IsKeyed user_of s.user_orgs
  pub rooted :
      (i : String) (r : UserOrgRelation) → In r (rows s.members i) → Dict.get s.orgs i ≢ none

pub new-IsOrgStore : IsOrgStore new
new-IsOrgStore = record {
  keyed = λ i o e. absurd (ground (arith, e, get-empty {V = Organization} i));
  mirror = empty-IsMirror org_of user_of;
  by_org = empty-IsKeyed org_of;
  by_user = empty-IsKeyed user_of;
  rooted = λ i r m. let m' : In r [] = rw (rows-empty i) at m in elim m' [ ];
}

module _ (s : MemoryOrgStore) (h : IsOrgStore s) where
  -- An organisation is put under its own id, and the relations stay.
  put_org-IsOrgStore :
      (i : String) (o : Organization)
      → o.id ≡ i
      → IsOrgStore (record s { orgs = Dict.put s.orgs i o })
  put_org-IsOrgStore i o own = record {
    keyed = λ j v e. ground (arith, e, h.keyed j v, get-put s.orgs i o j, eq_iff i j, own);
    mirror = h.mirror;
    by_org = h.by_org;
    by_user = h.by_user;
    rooted = λ j r m e. ground (arith, e, h.rooted j r m, get-put s.orgs i o j);
  }

  added_rooted :
      (rel : UserOrgRelation)
      → Dict.get s.orgs rel.org_id ≢ none
      → (i : String) (r : UserOrgRelation) → In r (rows (append_row s.members rel.org_id rel) i)
      → Dict.get s.orgs i ≢ none
  added_rooted rel known i r m = elim (text_cases rel.org_id i) [
    | inl same ↦ subst (λ k. Dict.get s.orgs k ≢ none) same.1 known
    | inr other ↦ h.rooted i r (In-append_row_ne s.members rel.org_id rel i r other.0 m)
  ]

  pub create-IsOrgStore : (now : Time) (org : Organization) → IsOrgStore (create now org s).1
  unfolding create
  create-IsOrgStore now org = elim (Option-cases (Dict.get s.orgs org.id)) [
    | inr (o, e) ↦ rw (e, create) h
    | inl free ↦ elim (Bool-cases (org.parent_id == "")) [
      | inl root ↦ rw (free, root, create) (put_org-IsOrgStore org.id _ refl)
      | inr child ↦ elim (Option-cases (Dict.get s.orgs org.parent_id)) [
        | inl orphan ↦ rw (free, child, orphan, create) h
        | inr (parent, e) ↦ rw (free, child, e, create) (put_org-IsOrgStore org.id _ refl)
      ]
    ]
  ]

  pub update-IsOrgStore : (now : Time) (org : Organization) → IsOrgStore (update now org s).1
  unfolding update
  update-IsOrgStore now org = elim (Option-cases (Dict.get s.orgs org.id)) [
    | inl missing ↦ rw (missing, update) h
    | inr (old, e) ↦ rw (e, update) (put_org-IsOrgStore org.id _ (h.keyed org.id old e))
  ]

  pub delete-IsOrgStore : (id : String) → IsOrgStore (delete id s).1
  unfolding delete
  delete-IsOrgStore id = elim (Option-cases (Dict.get s.orgs id)) [
    | inl missing ↦ rw (missing, delete) h
    | inr (old, e) ↦
        rw (e, delete)
          (record {
            keyed = λ j v f. ground (arith, f, h.keyed j v, get-remove s.orgs id j);
            mirror = delete-IsMirror org_of user_of s.members s.user_orgs h.mirror id;
            by_org = remove-IsKeyed org_of s.members h.by_org id;
            by_user =
                drop_each-IsKeyed org_of user_of user_of id (rows s.members id) s.user_orgs
                  h.by_user;
            rooted = λ j r m f. elim (text_cases id j) [
              | inl same ↦
                  let m' : In r [] = rw (rows-remove s.members id j, same.0) at m in elim m' [ ]
              | inr other ↦
                  h.rooted j r (rw (rows-remove s.members id j, other.0) at m)
                    (ground (arith, f, get-remove s.orgs id j, other.0))
            ];
          })
  ]

  pub add_member-IsOrgStore : (rel : UserOrgRelation) → IsOrgStore (add_member rel s).1
  unfolding add_member
  add_member-IsOrgStore rel = elim (Option-cases (Dict.get s.orgs rel.org_id)) [
    | inl missing ↦ rw (missing, add_member) h
    | inr (org, e) ↦
        elim (Bool-cases (any (λ r. r.user_id == rel.user_id) (rows s.members rel.org_id))) [
          | inl exists ↦ rw (e, exists, add_member) h
          | inr fresh ↦
              rw (e, fresh, add_member)
                (record {
                  keyed = h.keyed;
                  mirror = append-IsMirror org_of user_of s.members s.user_orgs h.mirror rel fresh;
                  by_org = append-IsKeyed org_of s.members h.by_org rel;
                  by_user = append-IsKeyed user_of s.user_orgs h.by_user rel;
                  rooted = added_rooted rel (λ f. ground (arith, e, f));
                })
        ]
  ]

  pub remove_member-IsOrgStore :
      (org_id user_id : String) → IsOrgStore (remove_member org_id user_id s).1
  unfolding remove_member remove_user_org_relation
  remove_member-IsOrgStore org_id user_id =
      elim (Bool-cases (any (λ r. r.user_id == user_id) (rows s.members org_id))) [
        | inr absent ↦ rw (absent, remove_member) h
        | inl present ↦
            rw (present, remove_member)
              (record {
                keyed = h.keyed;
                mirror = drop-IsMirror org_of user_of s.members s.user_orgs h.mirror org_id user_id;
                by_org = drop_rows-IsKeyed org_of s.members h.by_org user_of org_id user_id;
                by_user = drop_rows-IsKeyed user_of s.user_orgs h.by_user org_of user_id org_id;
                rooted =
                    λ j r m. h.rooted j r (In-drop_rows user_of org_id user_id s.members j r m);
              })
      ]

-- One call of the store that may change it, with any argument.
pub data Step : MemoryOrgStore → MemoryOrgStore → Type 0 where
  create_step : (now : Time) (org : Organization) (s : MemoryOrgStore) → Step s (create now org s).1
  update_step : (now : Time) (org : Organization) (s : MemoryOrgStore) → Step s (update now org s).1
  delete_step : (id : String) (s : MemoryOrgStore) → Step s (delete id s).1
  add_step : (rel : UserOrgRelation) (s : MemoryOrgStore) → Step s (add_member rel s).1
  remove_step :
      (org_id user_id : String) (s : MemoryOrgStore) → Step s (remove_member org_id user_id s).1

pub data Reach : MemoryOrgStore → Type 0 where
  start : Reach new
  next : {s t : MemoryOrgStore} → Reach s → Step s t → Reach t

Step-IsOrgStore : {s t : MemoryOrgStore} → Step s t → IsOrgStore s → IsOrgStore t
Step-IsOrgStore (create_step now org s) h = create-IsOrgStore s h now org
Step-IsOrgStore (update_step now org s) h = update-IsOrgStore s h now org
Step-IsOrgStore (delete_step id s) h = delete-IsOrgStore s h id
Step-IsOrgStore (add_step rel s) h = add_member-IsOrgStore s h rel
Step-IsOrgStore (remove_step org_id user_id s) h = remove_member-IsOrgStore s h org_id user_id

-- In every store that the operations reach from the empty one, an organisation is stored under its
-- own id, the relations between an organisation and a user are the same and in the same order in
-- the table by organisation and in the table by user, and at most one, each relation stands under
-- its own organisation and its own user, and only stored organisations have members.
pub Reach-IsOrgStore : {s : MemoryOrgStore} → Reach s → IsOrgStore s
Reach-IsOrgStore start = new-IsOrgStore
Reach-IsOrgStore (next r step) = Step-IsOrgStore step (Reach-IsOrgStore r)
