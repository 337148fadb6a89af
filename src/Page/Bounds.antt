-- ===== src/Page/Bounds.antt =====
-- What a page holds, and when the slice panics.
use auth_imp.Base.{
  ℕ, ◌≤◌, ◌<◌, ◌-◌, ◌+◌, ◌^◌, ◌≡◌, inl, inr, List, [], arith, length, take, drop, Bool-cases,
  drop_all, take-nil, take_all, length-drop, length-take, ap, leb, ltb,
}
use auth_imp.Base.Int.{ℤ, pos, negsuc, pos_part}
use auth_imp.Errors.{ok, panic, Result-cases}
use auth_imp.Page.{page, slice, cut_end}

-- The cases of `page` at numbers that are not negative.
module _ {A : Type 0} (all : List A) (offset limit : ℕ) where
  page_past : length all ≤ offset → page all (pos offset) (pos limit) ≡ ok ([], length all)
  unfolding page
  page_past h = ground arith

  page_inside :
      offset < length all
      → offset + limit ≤ length all
      → length all < 2 ^ 63
      → page all (pos offset) (pos limit) ≡ ok (take limit (drop offset all), length all)
  unfolding page
  page_inside h k b = ground arith

  page_cut :
      offset < length all
      → length all < offset + limit
      → offset + limit < 2 ^ 63
      → page all (pos offset) (pos limit)
        ≡ ok (take (length all - offset) (drop offset all), length all)
  unfolding page
  page_cut h k b = ground arith

  rest_fits : length all ≤ offset + limit → take limit (drop offset all) ≡ drop offset all
  rest_fits h = take_all limit (drop offset all) (omega (arith, length-drop offset all))

  rest_whole : take (length all - offset) (drop offset all) ≡ drop offset all
  rest_whole =
      take_all (length all - offset) (drop offset all) (omega (arith, length-drop offset all))

-- A page from an offset and a limit that are not negative, and whose sum is an `int`, holds the
-- elements from `offset` on, `limit` of them at most, beside the length of the whole list.
pub page-eq-run :
    {A : Type 0} (all : List A) (offset limit : ℕ)
    → length all < 2 ^ 63
    → offset + limit < 2 ^ 63
    → page all (pos offset) (pos limit) ≡ ok (take limit (drop offset all), length all)
page-eq-run all offset limit h k = elim (Bool-cases (leb (length all) offset)) [
  | inl past ↦ rw (
    page_past all offset limit (ground arith),
    drop_all offset all (ground arith),
    take-nil limit,
  )
  | inr inside ↦ elim (Bool-cases (ltb (length all) (offset + limit))) [
    | inl cut ↦ rw (
      page_cut all offset limit (ground arith) (ground arith) k,
      rest_whole all offset limit,
      rest_fits all offset limit (ground arith),
    )
    | inr fits ↦ page_inside all offset limit (ground arith) (ground arith) h
  ]
]

-- A negative offset panics, whatever the limit.
pub page_negative :
    {A : Type 0} (all : List A) (n : ℕ) (limit : ℤ) → page all (negsuc n) limit ≡ panic
unfolding page
page_negative all n limit = ground arith

-- A slice has as many elements as lie between its bounds, at most.
slice-length :
    {A : Type 0} (all items : List A) (n : ℕ) (hi : ℤ)
    → slice all (pos n) hi ≡ ok items
    → length items ≤ pos_part hi - n
unfolding slice
slice-length all items n hi e =
    let cut = take (pos_part hi - n) (drop n all) in
    let same : items ≡ cut = ground arith in
    omega (arith, ap length same, length-take (pos_part hi - n) (drop n all))

cut_end-le : (total n limit : ℕ) → pos_part (cut_end total (pos n) (pos limit)) ≤ n + limit
unfolding cut_end
cut_end-le total n limit = ground arith

-- A page never holds more than the limit, wherever it starts.
pub page-length :
    {A : Type 0} (all items : List A) (offset : ℤ) (limit total : ℕ)
    → page all offset (pos limit) ≡ ok (items, total)
    → length items ≤ limit
unfolding page
page-length all items (pos n) limit total e = elim (Bool-cases (leb (length all) n)) [
  | inl past ↦ ground (arith, e, past)
  | inr inside ↦
      let hi = cut_end (length all) (pos n) (pos limit) in
      let fits : pos_part hi ≤ n + limit = cut_end-le (length all) n limit in
      elim (Result-cases (slice all (pos n) hi)) [
        | inl (cut, f) ↦
            let same : items ≡ cut = ground (arith, e, f, inside) in
            omega (arith, ap length same, slice-length all cut n hi f, fits)
        | inr (inl (x, f)) ↦ absurd (ground (arith, e, f, inside))
        | inr (inr f) ↦ absurd (ground (arith, e, f, inside))
      ]
]
page-length all items (negsuc n) limit total e =
    absurd (ground (arith, e, page_negative all n (pos limit)))
