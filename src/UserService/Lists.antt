-- ===== src/UserService/Lists.antt =====
-- `ListUsers` and `GetOnlineCount`.
use auth_imp.Base.{
  ℕ, ◌≤◌, ◌<◌, ◌^◌, String, ◌≡◌, ◌∙◌, ap, inl, inr, List, arith, length, take, ◌==◌, Bool-cases,
  take_all, refl, not, Bool, select,
}
use auth_imp.Base.Int.{ℤ, pos, negsuc, pos_part}
use auth_imp.Errors.{ok, panic}
use mathlib.Core.List.{Permᴰ}
use auth_imp.Dict
use auth_imp.Dict.Order.{Order, IsOrder, length-select-perm}
use auth_imp.Model.{User}
use auth_imp.UserStore
use auth_imp.UserStore.{MemoryStore, live_users, is_deleted}
use auth_imp.UserStore.Listing.{
  list-page, list_negative, search_users_negative, list-length, search_users-length,
}
use auth_imp.UserService.{clamp_limit, list_users, count_online, get_online_count}

-- The limit is brought into the range from 1 to 100, whatever was asked for.
pub clamp_limit_range :
    (limit : ℤ)
    → (clamp_limit limit ≡ pos (pos_part (clamp_limit limit)))
      × (1 ≤ pos_part (clamp_limit limit))
      × (pos_part (clamp_limit limit) ≤ 100)
unfolding clamp_limit
clamp_limit_range (pos n) = (ground arith, ground arith, ground arith)
clamp_limit_range (negsuc n) = (ground arith, ground arith, ground arith)

module _ (lower : String → String) (order : Order User) (q : String) (s : MemoryStore) where
  -- A list of users that `ListUsers` returns holds a hundred of them at most, with or without a
  -- query, whatever the limit and the offset.
  pub list_users-length :
      (offset limit : ℤ) (us : List User) (total : ℕ)
      → list_users lower order q offset limit s ≡ ok (us, total)
      → length us ≤ 100
  unfolding list_users
  list_users-length offset limit us total e =
      let (exact, low, high) = clamp_limit_range limit in
      let n = pos_part (clamp_limit limit) in
      elim (Bool-cases (q == "")) [
        | inl plain ↦
            let listed : UserStore.list order offset (pos n) s ≡ ok (us, total) =
              rw (← exact) (ground (arith, e, plain)) in
            omega (arith, list-length order offset n total s us listed)
        | inr query ↦
            let searched : UserStore.search_users lower order q offset (pos n) s ≡ ok (us, total) =
              rw (← exact) (ground (arith, e, query)) in
            omega (arith, search_users-length lower order q offset n total s us searched)
      ]

  -- A negative offset makes `ListUsers` panic, with or without a query, whatever the limit.
  pub list_users_negative :
      (n : ℕ) (limit : ℤ) → list_users lower order q (negsuc n) limit s ≡ panic
  unfolding list_users
  list_users_negative n limit = ground (
    arith,
    list_negative order n (clamp_limit limit) s,
    search_users_negative lower order q n (clamp_limit limit) s,
  )

-- The number of online users is the number of marks among the first ten thousand live users that
-- the loop over the map meets.
pub get_online_count_exact :
    (order : Order User) (s : MemoryStore)
    → IsOrder order
    → length (live_users (λ xs. xs) s) < 2 ^ 63
    → get_online_count order s ≡ ok (count_online (take 10000 (live_users order s)))
unfolding get_online_count
get_online_count_exact order s any_order fits =
    ground (arith, list-page order s 0 10000 any_order fits (omega arith))

count_online-perm :
    (p : User → Bool) {xs ys : List User}
    → Permᴰ xs ys
    → count_online (select p xs) ≡ count_online (select p ys)
unfolding count_online
count_online-perm p Permᴰ.nil = refl
count_online-perm p (Permᴰ.cons e q) =
    ground (arith, ap p e, ap (λ (u : User). u.is_online) e, count_online-perm p q)
count_online-perm p (Permᴰ.swap e f) =
    ground
      (arith, ap p e, ap p f, ap (λ (u : User). u.is_online) e, ap (λ (u : User). u.is_online) f)
count_online-perm p (Permᴰ.trans q r) = count_online-perm p q ∙ count_online-perm p r

-- Up to ten thousand live users, that is the number of all live users that are online, in every
-- order of the loop; beyond, users are left out.
pub get_online_count_whole :
    (order : Order User) (s : MemoryStore)
    → IsOrder order
    → length (live_users (λ xs. xs) s) ≤ 10000
    → get_online_count order s ≡ ok (count_online (live_users (λ xs. xs) s))
unfolding live_users
get_online_count_whole order s any_order few =
    let test = λ (u : User). not (is_deleted u) in
    let met = any_order (Dict.values s.users) in
    let all : take 10000 (live_users order s) ≡ live_users order s =
      take_all 10000 (live_users order s) (rw (length-select-perm test met) few) in
    ground (
      arith,
      get_online_count_exact order s any_order (omega (arith, few)),
      all,
      count_online-perm test met,
    )
