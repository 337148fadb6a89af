-- ===== src/UserStore/Listing.antt =====
-- `MemoryStore.List` and `MemoryStore.Search` against the lookup by id, for every order in which
-- the loop over the map may run.
use auth_imp.Base.{
  ℕ, List, ◌≤◌, ◌+◌, ◌<◌, ◌^◌, String, ◌≡◌, ◌↔◌, ◌&&◌, Bool, refl, some, not, true, false, arith,
  length, take, drop, In, In-select, In-of-select,
}
use auth_imp.Base.Int.{ℤ, pos, negsuc}
use auth_imp.Errors.{ok, panic}
use auth_imp.Dict
use auth_imp.Dict.{In-values, In-values_inv}
use auth_imp.Dict.Order.{Order, IsOrder, In-perm, In-perm_inv, length-select-perm}
use auth_imp.Model.{User}
use auth_imp.Page.Bounds.{page-eq-run, page_negative, page-length}
use auth_imp.UserStore.{
  MemoryStore, get_by_id, is_deleted, live_users, matched_users, matches, list, search_users,
}
use auth_imp.UserStore.Invariant.{IsUserStore}
use auth_imp.UserStore.Reads.{get_by_id_iff}

-- Conditions of the two loops, as equations.
kept_alive : (u : User) → not (is_deleted u) ≡ true → is_deleted u ≡ false
kept_alive u e = ground arith

alive_kept : (u : User) → is_deleted u ≡ false → not (is_deleted u) ≡ true
alive_kept u e = rw e

and_parts : (a b : Bool) → (not a && b) ≡ true → (a ≡ false) × (b ≡ true)
and_parts a b e = ground arith

and_true : (a b : Bool) → a ≡ false → b ≡ true → (not a && b) ≡ true
and_true a b e f = ground arith

module _ (order : Order User) (any_order : IsOrder order) (s : MemoryStore)
    (h : IsUserStore s) where
  -- The loop meets a user exactly when it is stored under its id.
  In-loop : (u : User) → In u (order (Dict.values s.users)) ↔ (Dict.get s.users u.id ≡ some u)
  In-loop u = (
    (λ m.
        let (i, at) = In-values_inv s.users u (In-perm u (any_order (Dict.values s.users)) m) in
        ground (arith, at, h.keyed i u at)),
    λ e. In-perm_inv u (any_order (Dict.values s.users)) (In-values s.users u.id u e),
  )

  -- In a store with the user store's invariant, and whatever the order in which the map is met,
  -- `List` collects exactly the users that `GetByID` finds under their ids.
  pub In-live_users : (u : User) → In u (live_users order s) ↔ (get_by_id u.id s ≡ ok u)
  unfolding live_users
  In-live_users u =
      let test = λ (v : User). not (is_deleted v) in
      let all = order (Dict.values s.users) in
      (
        (λ m.
            let (met, kept) = In-of-select test u all m in
            (get_by_id_iff s h u.id u).1 (((In-loop u).0 met, kept_alive u kept), refl)),
        λ e.
            let (alive, _) = (get_by_id_iff s h u.id u).0 e in
            In-select test u all ((In-loop u).1 alive.0) (alive_kept u alive.1),
      )

  module _ (lower : String → String) (query : String) where
    -- In a store with the user store's invariant, and whatever the order in which the map is met,
    -- `Search` collects exactly the users that `GetByID` finds under their ids and that match the
    -- query.
    pub In-matched_users :
        (u : User)
        → In u (matched_users lower order query s)
          ↔ ((get_by_id u.id s ≡ ok u) × (matches lower query u ≡ true))
    unfolding matched_users
    In-matched_users u =
        let test = λ (v : User). not (is_deleted v) && matches lower query v in
        let all = order (Dict.values s.users) in
        (
          (λ m.
              let (met, kept) = In-of-select test u all m in
              let (alive, matching) = and_parts (is_deleted u) (matches lower query u) kept in
              ((get_by_id_iff s h u.id u).1 (((In-loop u).0 met, alive), refl), matching)),
          λ p.
              let (alive, _) = (get_by_id_iff s h u.id u).0 p.0 in
              In-select test u all ((In-loop u).1 alive.0)
                (and_true (is_deleted u) (matches lower query u) alive.1 p.1),
        )

-- A page of `List` from an offset and a limit that are not negative, whose sum is below 2^63, in a
-- store of fewer than 2^63 live users, holds the live users from the offset on, `limit` of them at
-- most, and its total is the number of live users, whatever the order in which the map is met.
pub list-page :
    (order : Order User) (s : MemoryStore) (offset limit : ℕ)
    → IsOrder order
    → length (live_users (λ xs. xs) s) < 2 ^ 63
    → offset + limit < 2 ^ 63
    → list order (pos offset) (pos limit) s
      ≡ ok (take limit (drop offset (live_users order s)), length (live_users (λ xs. xs) s))
unfolding list live_users
list-page order s offset limit any_order fits in_range =
    let same = length-select-perm (λ u. not (is_deleted u)) (any_order (Dict.values s.users)) in
    rw (page-eq-run (live_users order s) offset limit (rw same fits) in_range, same)

-- Neither loop is reached with a negative offset: the slice panics.
pub list_negative :
    (order : Order User) (n : ℕ) (limit : ℤ) (s : MemoryStore)
    → list order (negsuc n) limit s ≡ panic
unfolding list
list_negative order n limit s = page_negative (live_users order s) n limit

pub search_users_negative :
    (lower : String → String) (order : Order User) (query : String) (n : ℕ) (limit : ℤ)
    (s : MemoryStore)
    → search_users lower order query (negsuc n) limit s ≡ panic
unfolding search_users
search_users_negative lower order query n limit s =
    page_negative (matched_users lower order (lower query) s) n limit

-- Both give at most `limit` users.
pub list-length :
    (order : Order User) (offset : ℤ) (limit total : ℕ) (s : MemoryStore) (us : List User)
    → list order offset (pos limit) s ≡ ok (us, total)
    → length us ≤ limit
unfolding list
list-length order offset limit total s us e =
    page-length (live_users order s) us offset limit total e

pub search_users-length :
    (lower : String → String) (order : Order User) (query : String) (offset : ℤ) (limit total : ℕ)
    (s : MemoryStore) (us : List User)
    → search_users lower order query offset (pos limit) s ≡ ok (us, total)
    → length us ≤ limit
unfolding search_users
search_users-length lower order query offset limit total s us e =
    page-length (matched_users lower order (lower query) s) us offset limit total e
