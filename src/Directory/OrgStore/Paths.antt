-- ===== src/Directory/OrgStore/Paths.antt =====
-- The hierarchy paths that `Create` builds, and what `Update` does not do to them.
use Prim.Native.String.{◌++◌}
use text.Mathlib.TextLemmas.{nil-append}
use auth_imp.Base.{
  String, ◌≡◌, ◌≢◌, refl, sym, ap, ◌∙◌, some, arith, inl, inr, eq_iff, eq_refl, Option-cases,
  Bool-cases, text_cases, ◌==◌,
}
use auth_imp.Errors.{ok}
use auth_imp.Dict
use auth_imp.Dict.{Dict, get-put, get-remove, get-empty}
use auth_imp.Model.{Time, Organization, UserOrgRelation}
use auth_imp.Directory.OrgStore.{
  MemoryOrgStore, new, create, get_by_id, update, delete, add_member, remove_member, overlay,
  placed,
}
use auth_imp.Directory.OrgStore.Invariant.{
  Step, Reach, start, next, create_step, update_step, delete_step, add_step, remove_step,
}

-- Each stored path ends in a slash and the id.
pub record IsPathed (s : MemoryOrgStore) : Type 0 where
  pub ends :
      (i : String) (o : Organization)
      → Dict.get s.orgs i ≡ some o
      → (above : String) × (o.path ≡ above ++ ("/" ++ i))

module _ (s : MemoryOrgStore) (h : IsPathed s) where
  put-IsPathed :
      (i : String) (new : Organization) (above : String)
      → new.path ≡ above ++ ("/" ++ i)
      → IsPathed (record s { orgs = Dict.put s.orgs i new })
  put-IsPathed i new above e = record {
    ends = λ j o at. elim (text_cases i j) [
      | inl same ↦ (above, ground (arith, at, e, same.1, get-put s.orgs i new j, eq_refl i))
      | inr other ↦ h.ends j o (ground (arith, at, other.0, get-put s.orgs i new j))
    ];
  }

  create-IsPathed : (now : Time) (org : Organization) → IsPathed (create now org s).1
  unfolding create
  create-IsPathed now org = elim (Option-cases (Dict.get s.orgs org.id)) [
    | inr (o, e) ↦ rw (e, create) h
    | inl free ↦ elim (Bool-cases (org.parent_id == "")) [
      | inl root ↦
          rw (free, root, create)
            (put-IsPathed org.id (placed now org ("/" ++ org.id)) "" (sym (nil-append _)))
      | inr child ↦ elim (Option-cases (Dict.get s.orgs org.parent_id)) [
        | inl orphan ↦ rw (free, child, orphan, create) h
        | inr (parent, e) ↦ rw (free, child, e, create) (put-IsPathed org.id _ parent.path refl)
      ]
    ]
  ]

  update-IsPathed : (now : Time) (org : Organization) → IsPathed (update now org s).1
  unfolding update
  update-IsPathed now org = elim (Option-cases (Dict.get s.orgs org.id)) [
    | inl missing ↦ rw (missing, update) h
    | inr (old, e) ↦
        let (above, ends) = h.ends org.id old e in rw (e, update) (put-IsPathed org.id _ above ends)
  ]

  delete-IsPathed : (id : String) → IsPathed (delete id s).1
  unfolding delete
  delete-IsPathed id = elim (Option-cases (Dict.get s.orgs id)) [
    | inl missing ↦ rw (missing, delete) h
    | inr (old, e) ↦
        rw (e, delete)
          (record { ends = λ j o at. h.ends j o (ground (arith, at, get-remove s.orgs id j)) })
  ]

-- The calls on members leave the organisations alone.
pub orgs-add_member :
    (rel : UserOrgRelation) (s : MemoryOrgStore) → (add_member rel s).1.orgs ≡ s.orgs
unfolding add_member
orgs-add_member rel s = ground arith

pub orgs-remove_member :
    (org_id user_id : String) (s : MemoryOrgStore)
    → (remove_member org_id user_id s).1.orgs ≡ s.orgs
unfolding remove_member
orgs-remove_member org_id user_id s = ground arith

same_orgs-IsPathed : (s t : MemoryOrgStore) → t.orgs ≡ s.orgs → IsPathed s → IsPathed t
same_orgs-IsPathed s t same h = record {
  ends = λ i o at. h.ends i o (ap (λ (d : Dict Organization). Dict.get d i) (sym same) ∙ at);
}

Step-IsPathed : {s t : MemoryOrgStore} → Step s t → IsPathed s → IsPathed t
Step-IsPathed (create_step now org s) h = create-IsPathed s h now org
Step-IsPathed (update_step now org s) h = update-IsPathed s h now org
Step-IsPathed (delete_step id s) h = delete-IsPathed s h id
Step-IsPathed (add_step rel s) h = same_orgs-IsPathed s _ (orgs-add_member rel s) h
Step-IsPathed (remove_step org_id user_id s) h =
    same_orgs-IsPathed s _ (orgs-remove_member org_id user_id s) h

-- In every store that the operations reach from the empty one, the path of each stored
-- organisation ends in a slash and its id.
pub Reach-IsPathed : {s : MemoryOrgStore} → Reach s → IsPathed s
Reach-IsPathed start = record {
  ends = λ i o at. absurd (ground (arith, at, get-empty {V = Organization} i));
}
Reach-IsPathed (next r step) = Step-IsPathed step (Reach-IsPathed r)

module _ (now : Time) (org : Organization) (s : MemoryOrgStore) where
  -- When the creation of an organisation that names a parent succeeds, the organisation is found
  -- by its id, the parent was stored, and the path is the parent's path, a slash and the id.
  pub create_child :
      (o : Organization)
      → org.parent_id ≢ ""
      → (create now org s).0 ≡ ok o
      → (get_by_id org.id (create now org s).1 ≡ ok o)
        × ((parent : Organization) × (get_by_id org.parent_id s ≡ ok parent)
            × (o.path ≡ parent.path ++ ("/" ++ org.id)))
  unfolding create get_by_id
  create_child o child e = elim (Option-cases (Dict.get s.orgs org.id)) [
    | inr (old, f) ↦ absurd (ground (arith, e, f))
    | inl free ↦ elim (Option-cases (Dict.get s.orgs org.parent_id)) [
      | inl orphan ↦ absurd (ground (arith, e, free, orphan, child, eq_iff org.parent_id ""))
      | inr (parent, f) ↦
          let created = placed now org (parent.path ++ ("/" ++ org.id)) in
          (
            ground (
              arith,
              e,
              free,
              f,
              child,
              eq_iff org.parent_id "",
              get-put s.orgs org.id created org.id,
              eq_refl org.id,
            ),
            (parent, ground (arith, f), ground (arith, e, free, f, child, eq_iff org.parent_id "")),
          )
    ]
  ]

  -- An update of a stored organisation that names a parent succeeds, whether or not that parent is
  -- stored: the organisation is then found with that parent and with the path that it had.
  pub update_moves_without_path :
      (old : Organization)
      → org.parent_id ≢ ""
      → Dict.get s.orgs org.id ≡ some old
      → ((update now org s).0 ≡ ok tt)
        × ((moved : Organization) × (get_by_id org.id (update now org s).1 ≡ ok moved)
            × (moved.parent_id ≡ org.parent_id)
            × (moved.path ≡ old.path))
  unfolding update get_by_id
  update_moves_without_path old other stored = (
    ground (arith, stored),
    (
      overlay now org old,
      ground (arith, stored, get-put s.orgs org.id (overlay now org old) org.id, eq_refl org.id),
      ground (arith, other, eq_iff org.parent_id ""),
      refl,
    ),
  )
