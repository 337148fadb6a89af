-- ===== src/Page.antt =====
-- The paging that every `List` ends with (internal/user/memory_store.go and
-- internal/directory/memory_store.go): the guard on `offset`, the cut of `end`, and the slice
-- expression, which panics when its bounds are out of range.
pub mod Bounds
use auth_imp.Base.{ℕ, ◌-◌, List, [], if◌then◌else◌, length, take, drop, ◌||◌}
use auth_imp.Base.Int.{ℤ, pos, pos_part, ltb_ℤ, leb_ℤ, add_int}
use auth_imp.Errors.{Result, ok, err, panic}

-- Go's `all[lo:hi]` of a slice whose capacity is not used beyond its length.
unfoldable pub slice {ℓ} : {A : Type ℓ} → List A → ℤ → ℤ → Result (List A)
slice all lo hi =
    if ltb_ℤ lo (pos 0) || ltb_ℤ hi lo || ltb_ℤ (pos (length all)) hi
    then panic
    else ok (take (pos_part hi - pos_part lo) (drop (pos_part lo) all))

-- `end := offset + limit`, cut to the total.
unfoldable pub cut_end : ℕ → ℤ → ℤ → ℤ
cut_end total offset limit =
    let end = add_int offset limit in if ltb_ℤ (pos total) end then pos total else end

-- `total := int64(len(all))` and the statements after it.
unfoldable pub page {ℓ} : {A : Type ℓ} → List A → ℤ → ℤ → Result (List A × ℕ)
unfolding slice cut_end
page all offset limit =
    let total = length all in
    if leb_ℤ (pos total) offset
    then ok ([], total)
    else elim (slice all offset (cut_end total offset limit)) [
      | ok items ↦ ok (items, total)
      | err e ↦ err e
      | panic ↦ panic
    ]
