-- ===== src/Directory/Membership.antt =====
-- The two tables of relations that the organisation store and the group store keep alike: the
-- relations of each owner (an organisation or a group) in the order of their arrival, and the same
-- relations once more by user. A nil slice is an empty list; a missing key reads as one.
pub mod Mirror
pub mod Keyed
use auth_imp.Base.{
  String, Option, none, some, Bool, not, List, [], ◌∷◌, ◌++◌, ◌==◌, select, any, ◌≡◌, if◌then◌else◌,
  arith, eq_iff,
}
use auth_imp.Dict
use auth_imp.Dict.{Dict, get-put, get-remove, get-empty}

module _ {R : Type 0} where
  -- `m[k]`
  unfoldable pub rows : Dict (List R) → String → List R
  rows table k = elim (Dict.get table k) [ none ↦ [] | some rels ↦ rels ]

  -- `m[k] = append(m[k], rel)`
  unfoldable pub append_row : Dict (List R) → String → R → Dict (List R)
  append_row table k rel = Dict.put table k (rows table k ++ rel ∷ [])

  -- The loop that keeps the rows of one key which do not have `v` in a field.
  unfoldable pub drop_rows : (R → String) → String → String → Dict (List R) → Dict (List R)
  drop_rows field k v table = Dict.put table k (select (λ r. not (field r == v)) (rows table k))

  -- The loop over the rows of a deleted owner: each one is dropped on its user's side.
  unfoldable pub drop_each :
      (R → String) → (R → String) → String → List R → Dict (List R) → Dict (List R)
  drop_each owner_of user_of owner [] table = table
  drop_each owner_of user_of owner (r ∷ rels) table =
      drop_each owner_of user_of owner rels (drop_rows owner_of (user_of r) owner table)

  pub rows-put :
      (table : Dict (List R)) (k : String) (rels : List R) (j : String)
      → rows (Dict.put table k rels) j ≡ (if k == j then rels else rows table j)
  unfolding rows
  rows-put table k rels j = ground (arith, get-put table k rels j)

  pub rows-remove :
      (table : Dict (List R)) (k j : String)
      → rows (Dict.remove table k) j ≡ (if k == j then [] else rows table j)
  unfolding rows
  rows-remove table k j = ground (arith, get-remove table k j)

  pub rows-empty : (k : String) → rows Dict.empty k ≡ []
  unfolding rows
  rows-empty k = ground (arith, get-empty {V = List R} k)

  pub rows-append_row :
      (table : Dict (List R)) (k : String) (rel : R) (j : String)
      → rows (append_row table k rel) j
        ≡ (if k == j then rows table j ++ rel ∷ [] else rows table j)
  unfolding append_row
  rows-append_row table k rel j =
      ground (arith, eq_iff k j, rows-put table k (rows table k ++ rel ∷ []) j)

  pub rows-drop_rows :
      (field : R → String) (k v : String) (table : Dict (List R)) (j : String)
      → rows (drop_rows field k v table) j
        ≡ (if k == j then select (λ r. not (field r == v)) (rows table j) else rows table j)
  unfolding drop_rows
  rows-drop_rows field k v table j =
      ground
        (arith, eq_iff k j, rows-put table k (select (λ r. not (field r == v)) (rows table k)) j)
