-- ===== src/Directory/Membership/Mirror.antt =====
-- The two tables mirror each other.
use mathlib.Core.List.{append-nil}
use auth_imp.Base.{
  ◌≤◌, String, ◌≡◌, false, not, List, [], ◌∷◌, ◌++◌, ◌==◌, select, any, length, arith, inl, inr,
  eq_iff, eq_refl, text_cases, ◌&&◌, if◌then◌else◌, select-append, select-select,
  select-select_none, select-not_none, any_none, sym, ◌∙◌, select_none, select-not_none, any_none,
  sym, ◌∙◌,
}
use auth_imp.Dict
use auth_imp.Dict.{Dict}
use auth_imp.Directory.Membership.{
  rows, append_row, drop_rows, drop_each, rows-put, rows-remove, rows-empty, rows-append_row,
  rows-drop_rows,
}

-- A selection by a field after a removal by the same field.
module _ {R : Type 0} (field : R → String) where
  select-drop :
      (v w : String) (rels : List R)
      → select (λ r. field r == w) (select (λ r. not (field r == v)) rels)
        ≡ (if v == w then [] else select (λ r. field r == w) rels)
  select-drop v w rels = elim (text_cases v w) [
    | inl same ↦ rw same.0 (
        select-select_none (λ r. field r == w) (λ r. not (field r == v)) rels
          (λ r e. rw (same.1, e)))
    | inr other ↦ rw other.0 (
        select-select (λ r. field r == w) (λ r. not (field r == v)) rels
          (λ r e. ground (arith, e, other.1, eq_iff (field r) w, eq_iff (field r) v)))
  ]

  pub select-drop_rows :
      (k v : String) (table : Dict (List R)) (j w : String)
      → select (λ r. field r == w) (rows (drop_rows field k v table) j) ≡ (
          if k == j
          then (if v == w then [] else select (λ r. field r == w) (rows table j))
          else select (λ r. field r == w) (rows table j))
  unfolding drop_rows
  select-drop_rows k v table j w = elim (text_cases k j) [
    | inl same ↦
        rw (rows-put table k (select (λ r. not (field r == v)) (rows table k)) j, same.0)
          (rw (← same.1) (select-drop v w (rows table k)))
    | inr other ↦ rw (rows-put table k (select (λ r. not (field r == v)) (rows table k)) j, other.0)
  ]

-- A row that is added and then dropped by its own field leaves every row as it was.
pub drop-append :
    {R : Type 0} (field : R → String) (table : Dict (List R)) (k : String) (rel : R)
    → any (λ r. field r == field rel) (rows table k) ≡ false
    → (j : String) → rows (drop_rows field k (field rel) (append_row table k rel)) j ≡ rows table j
drop-append field table k rel fresh j = elim (text_cases k j) [
  | inl same ↦
      rw (rows-drop_rows field k (field rel) (append_row table k rel) j, same.0)
        (rw (rows-append_row table k rel j, same.0)
          (rw (← same.1) (
            ground (
              arith,
              eq_refl (field rel),
              select-append (λ r. not (field r == field rel)) (rows table k) (rel ∷ []),
              select-not_none (λ r. field r == field rel) (rows table k) fresh,
              append-nil (rows table k),
            ))))
  | inr other ↦
      rw (rows-drop_rows field k (field rel) (append_row table k rel) j, other.0)
        (rw (rows-append_row table k rel j, other.0))
]

module _ {R : Type 0} (owner_of user_of : R → String) where
  -- The loop of a deletion clears the rows of the owner, for the users that it meets.
  pub select-drop_each :
      (owner : String) (rels : List R) (table : Dict (List R)) (u o : String)
      → select (λ r. owner_of r == o) (rows (drop_each owner_of user_of owner rels table) u) ≡ (
          if owner == o && any (λ r. user_of r == u) rels
          then []
          else select (λ r. owner_of r == o) (rows table u))
  unfolding drop_each
  select-drop_each owner [] table u o = ground arith
  select-drop_each owner (r ∷ rels) table u o = ground (
    arith,
    select-drop_rows owner_of (user_of r) owner table u o,
    select-drop_each owner rels (drop_rows owner_of (user_of r) owner table) u o,
  )

  -- The relations between an owner and a user are the same, in the same order, read from either
  -- table, and there is at most one.
  pub record IsMirror (members users : Dict (List R)) : Type 0 where
    pub mirrored :
        (o u : String)
        → select (λ r. user_of r == u) (rows members o)
          ≡ select (λ r. owner_of r == o) (rows users u)
    pub single : (o u : String) → length (select (λ r. user_of r == u) (rows members o)) ≤ 1

  pub empty-IsMirror : IsMirror Dict.empty Dict.empty
  empty-IsMirror = record {
    mirrored = λ o u. ground (arith, rows-empty {R = R} o, rows-empty {R = R} u);
    single = λ o u. ground (arith, rows-empty {R = R} o);
  }

  module _ (members users : Dict (List R)) (h : IsMirror members users) where
    -- A user that an owner does not list has no relation to the owner.
    pub fresh_mirror :
        (o u : String)
        → any (λ r. user_of r == u) (rows members o) ≡ false
        → any (λ r. owner_of r == o) (rows users u) ≡ false
    fresh_mirror o u fresh =
        any_none (λ r. owner_of r == o) (rows users u)
          (sym (h.mirrored o u) ∙ select_none (λ r. user_of r == u) (rows members o) fresh)

    module _ (rel : R)
        (fresh : any (λ r. user_of r == user_of rel) (rows members (owner_of rel)) ≡ false) where
      append-mirrored :
          (o u : String)
          → select (λ r. user_of r == u) (rows (append_row members (owner_of rel) rel) o)
            ≡ select (λ r. owner_of r == o) (rows (append_row users (user_of rel) rel) u)
      unfolding append_row
      append-mirrored o u = ground (
        arith,
        h.mirrored o u,
        eq_iff (owner_of rel) o,
        eq_iff (user_of rel) u,
        rows-put members (owner_of rel) (rows members (owner_of rel) ++ rel ∷ []) o,
        rows-put users (user_of rel) (rows users (user_of rel) ++ rel ∷ []) u,
        select-append (λ r. user_of r == u) (rows members o) (rel ∷ []),
        select-append (λ r. owner_of r == o) (rows users u) (rel ∷ []),
        append-nil (select (λ r. user_of r == u) (rows members o)),
        append-nil (select (λ r. owner_of r == o) (rows users u)),
      )

      append-single :
          (o u : String)
          → length (select (λ r. user_of r == u) (rows (append_row members (owner_of rel) rel) o))
            ≤ 1
      unfolding append_row
      append-single o u = elim (text_cases (user_of rel) u) [
        | inl same ↦ rw (← same.1) (
            ground (
              arith,
              h.single o (user_of rel),
              eq_iff (owner_of rel) o,
              rows-put members (owner_of rel) (rows members (owner_of rel) ++ rel ∷ []) o,
              select-append (λ r. user_of r == user_of rel) (rows members o) (rel ∷ []),
              select_none (λ r. user_of r == user_of rel) (rows members (owner_of rel)) fresh,
            ))
        | inr other ↦ ground (
          arith,
          other,
          h.single o u,
          eq_iff (owner_of rel) o,
          rows-put members (owner_of rel) (rows members (owner_of rel) ++ rel ∷ []) o,
          select-append (λ r. user_of r == u) (rows members o) (rel ∷ []),
          append-nil (select (λ r. user_of r == u) (rows members o)),
        )
      ]

      -- A relation is added on both sides, where its user was no member of its owner.
      pub append-IsMirror :
          IsMirror (append_row members (owner_of rel) rel) (append_row users (user_of rel) rel)
      append-IsMirror = record { mirrored = append-mirrored; single = append-single }

    -- A member is removed on both sides.
    pub drop-IsMirror :
        (owner user : String)
        → IsMirror (drop_rows user_of owner user members) (drop_rows owner_of user owner users)
    drop-IsMirror owner user = record {
      mirrored = λ o u. ground (
        arith,
        h.mirrored o u,
        select-drop_rows user_of owner user members o u,
        select-drop_rows owner_of user owner users u o,
      );
      single = λ o u. ground (arith, h.single o u, select-drop_rows user_of owner user members o u);
    }

    delete-mirrored :
        (owner o u : String)
        → select (λ r. user_of r == u) (rows (Dict.remove members owner) o)
          ≡ select
              (λ r. owner_of r == o)
              (rows (drop_each owner_of user_of owner (rows members owner) users) u)
    delete-mirrored owner o u = elim (text_cases owner o) [
      | inl same ↦ rw (← same.1) (
          ground (
            arith,
            eq_refl owner,
            h.mirrored owner u,
            rows-remove members owner owner,
            select-drop_each owner (rows members owner) users u owner,
            select_none (λ r. user_of r == u) (rows members owner),
          ))
      | inr other ↦ ground (
        arith,
        other,
        h.mirrored o u,
        rows-remove members owner o,
        select-drop_each owner (rows members owner) users u o,
      )
    ]

    -- An owner is deleted with its rows, and dropped on the side of each of its members.
    pub delete-IsMirror :
        (owner : String)
        → IsMirror
            (Dict.remove members owner)
            (drop_each owner_of user_of owner (rows members owner) users)
    delete-IsMirror owner = record {
      mirrored = delete-mirrored owner;
      single = λ o u. ground (arith, h.single o u, rows-remove members owner o);
    }
