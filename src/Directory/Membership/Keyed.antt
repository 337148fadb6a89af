-- ===== src/Directory/Membership/Keyed.antt =====
-- Each relation stands under the key that it names, and so the rows of a user are exactly the
-- relations that its owners list for it.
use auth_imp.Base.{
  String, false, ◌≡◌, ◌↔◌, ap, ◌∙◌, not, List, [], ◌∷◌, ◌++◌, ◌==◌, select, In, In-select,
  In-of-select, In-snoc, inl, inr, eq_iff, eq_refl, text_cases,
}
use auth_imp.Dict
use auth_imp.Dict.{Dict}
use auth_imp.Directory.Membership.{
  rows, append_row, drop_rows, drop_each, rows-put, rows-remove, rows-empty,
}
use auth_imp.Directory.Membership.Mirror.{IsMirror}

module _ {R : Type 0} where
  -- What is added at one key is not met at another.
  pub In-append_row_ne :
      (table : Dict (List R)) (k : String) (rel : R) (j : String) (r : R)
      → (k == j) ≡ false
      → In r (rows (append_row table k rel) j)
      → In r (rows table j)
  unfolding append_row
  In-append_row_ne table k rel j r ne m =
      rw (rows-put table k (rows table k ++ rel ∷ []) j, ne) at m

  -- A removal adds nothing.
  pub In-drop_rows :
      (by : R → String) (k v : String) (table : Dict (List R)) (j : String) (r : R)
      → In r (rows (drop_rows by k v table) j)
      → In r (rows table j)
  unfolding drop_rows
  In-drop_rows by k v table j r m =
      let kept = select (λ r. not (by r == v)) (rows table k) in
      elim (text_cases k j) [
        | inl same ↦
            rw same.1 at
              (In-of-select (λ (r : R). not (by r == v)) r (rows table k)
                (rw (rows-put table k kept j, same.0) at m)).0
        | inr other ↦ rw (rows-put table k kept j, other.0) at m
      ]

module _ {R : Type 0} (field : R → String) where
  pub record IsKeyed (table : Dict (List R)) : Type 0 where
    pub at_key : (k : String) (r : R) → In r (rows table k) → field r ≡ k

  none_met : (k : String) (r : R) → In r (rows Dict.empty k) → field r ≡ k
  none_met k r m = let m' : In r [] = rw (rows-empty k) at m in elim m' [ ]

  pub empty-IsKeyed : IsKeyed Dict.empty
  empty-IsKeyed = record { at_key = none_met }

  module _ (table : Dict (List R)) (h : IsKeyed table) where
    pub append-IsKeyed : (rel : R) → IsKeyed (append_row table (field rel) rel)
    unfolding append_row
    append-IsKeyed rel = record {
      at_key = λ k r m. elim (text_cases (field rel) k) [
        | inl same ↦
            elim (In-snoc r rel (rows table (field rel)) (
              rw (rows-put table (field rel) (rows table (field rel) ++ rel ∷ []) k, same.0) at
                m)) [
                  | inl old ↦ h.at_key (field rel) r old ∙ same.1
                  | inr new ↦ ap field new ∙ same.1
                ]
        | inr other ↦
            h.at_key k r
              (rw (rows-put table (field rel) (rows table (field rel) ++ rel ∷ []) k, other.0) at m)
      ];
    }

    pub drop_rows-IsKeyed : (by : R → String) (k v : String) → IsKeyed (drop_rows by k v table)
    drop_rows-IsKeyed by k v = record {
      at_key = λ j r m. h.at_key j r (In-drop_rows by k v table j r m);
    }

    pub remove-IsKeyed : (k : String) → IsKeyed (Dict.remove table k)
    remove-IsKeyed k = record {
      at_key = λ j r m. elim (text_cases k j) [
        | inl same ↦ let m' : In r [] = rw (rows-remove table k j, same.0) at m in elim m' [ ]
        | inr other ↦ h.at_key j r (rw (rows-remove table k j, other.0) at m)
      ];
    }

module _ {R : Type 0} (owner_of user_of : R → String) where
  pub drop_each-IsKeyed :
      (field : R → String) (owner : String) (rels : List R) (table : Dict (List R))
      → IsKeyed field table
      → IsKeyed field (drop_each owner_of user_of owner rels table)
  unfolding drop_each
  drop_each-IsKeyed field owner [] table h = h
  drop_each-IsKeyed field owner (r ∷ rels) table h =
      drop_each-IsKeyed field owner rels (drop_rows owner_of (user_of r) owner table)
        (drop_rows-IsKeyed field table h owner_of (user_of r) owner)

  module _ (members users : Dict (List R)) (by_owner : IsKeyed owner_of members)
      (by_user : IsKeyed user_of users) (h : IsMirror owner_of user_of members users) where
    -- The rows of a user are the relations that its owners list for it.
    pub In-rows_iff :
        (u : String) (r : R)
        → In r (rows users u) ↔ (In r (rows members (owner_of r)) × (user_of r ≡ u))
    In-rows_iff u r =
        let o = owner_of r in
        let to_user = λ (x : R). user_of x == u in
        let to_owner = λ (x : R). owner_of x == o in
        (
          (λ m.
              let both : In r (select to_owner (rows users u)) =
                In-select to_owner r (rows users u) m (eq_refl o) in
              let there : In r (select to_user (rows members o)) = rw (← h.mirrored o u) at both in
              ((In-of-select to_user r (rows members o) there).0, by_user.at_key u r m)),
          λ p.
              let both : In r (select to_user (rows members o)) =
                In-select to_user r (rows members o) p.0 ((eq_iff (user_of r) u).1 p.1) in
              let there : In r (select to_owner (rows users u)) = rw (h.mirrored o u) at both in
              (In-of-select to_owner r (rows users u) there).0,
        )
