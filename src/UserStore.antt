-- ===== src/UserStore.antt =====
-- The user store in memory: `MemoryStore` of internal/user/memory_store.go, with its two indexes.
-- An operation takes the time that `time.Now()` shows, and returns its result and the store.
-- A stored user is never shared (the source clones at every border), so a user is a value.
pub mod Index
pub mod Outcomes
pub mod Invariant
pub mod Reads
pub mod Creates
pub mod Updates
pub mod Deletes
pub mod Listing
pub mod Concurrent
pub mod Edits
use text.Mathlib.Text.{find?}
use auth_imp.Base.{
  ℕ, String, Bool, true, false, Option, none, some, List, not, ◌==◌, ◌&&◌, ◌||◌, if◌then◌else◌,
  select,
}
use auth_imp.Base.Int.{ℤ}
use auth_imp.Errors.{Error, Result, ok, err}
use auth_imp.Dict
use auth_imp.Dict.{Dict}
use auth_imp.Dict.Order.{Order}
use auth_imp.Model.{Time, User, user_status_active, user_status_deleted}
use auth_imp.Page.{page}

pub record MemoryStore : Type 0 where
  -- by id
  pub users : Dict User
  -- username to id, and email to id
  pub by_username : Dict String
  pub by_email : Dict String

-- `NewMemoryStore`
abbrev pub new : MemoryStore
new = record { users = Dict.empty; by_username = Dict.empty; by_email = Dict.empty }

-- `m.LoadOrStore(k, v)`: whether the key was there, and the map after it.
unfoldable pub load_or_store : Dict String → String → String → Bool × Dict String
load_or_store m k v = elim (Dict.get m k) [ none ↦ (false, Dict.put m k v) | some _ ↦ (true, m) ]

-- The fields that `Create` sets before it stores the clone.
unfoldable pub stamp_new : Time → User → User
stamp_new now user = record user {
  created_at = now;
  updated_at = now;
  status = if user.status == "" then user_status_active else user.status;
}

unfoldable pub create : Time → User → MemoryStore → Result User × MemoryStore
unfolding load_or_store
create now user s =
    let (taken, by_username) = load_or_store s.by_username user.username user.id in
    let (email_taken, by_email) = load_or_store s.by_email user.email user.id in
    if taken
    then (err Error.user_already_exists, s)
    else if email_taken
    then (
      err Error.user_already_exists,
      record s { by_username = Dict.remove by_username user.username },
    )
    else let created = stamp_new now user in
      (
        ok created,
        record {
          users = Dict.put s.users user.id created;
          by_username = by_username;
          by_email = by_email;
        },
      )

-- `u.Status == model.UserStatusDeleted`
abbrev pub is_deleted : User → Bool
is_deleted u = u.status == user_status_deleted

-- A loaded value, unless it is missing or marked as deleted.
abbrev pub live : Option User → Option User
live none = none
live (some u) = if is_deleted u then none else some u

abbrev pub found : Option User → Result User
found none = err Error.user_not_found
found (some u) = ok u

unfoldable pub get_by_id : String → MemoryStore → Result User
get_by_id id s = found (live (Dict.get s.users id))

unfoldable pub get_by_username : String → MemoryStore → Result User
unfolding get_by_id
get_by_username username s = elim (Dict.get s.by_username username) [
  | none ↦ err Error.user_not_found
  | some id ↦ get_by_id id s
]

unfoldable pub get_by_email : String → MemoryStore → Result User
unfolding get_by_id
get_by_email email s = elim (Dict.get s.by_email email) [
  | none ↦ err Error.user_not_found
  | some id ↦ get_by_id id s
]

-- The fields of `user` that are not empty, put over the stored ones, apart from the email.
unfoldable pub overlay : Time → User → User → User
overlay now user existing = record existing {
  display_name = if user.display_name == "" then existing.display_name else user.display_name;
  status = if user.status == "" then existing.status else user.status;
  is_online = user.is_online;
  updated_at = now;
}

-- `user.Email != "" && user.Email != existing.Email`
abbrev pub moves_email : User → User → Bool
moves_email user existing = not (user.email == "") && not (user.email == existing.email)

-- The part of `Update` behind its guards.
unfoldable pub update_existing : Time → User → User → MemoryStore → Result (Unit {0}) × MemoryStore
unfolding load_or_store overlay
update_existing now user existing s =
    let (taken, by_email) = load_or_store s.by_email user.email user.id in
    if moves_email user existing
    then if taken then (err Error.user_already_exists, s) else (
      ok tt,
      record s {
        users =
            Dict.put s.users user.id (record (overlay now user existing) { email = user.email });
        by_email = Dict.remove by_email existing.email;
      },
    )
    else (ok tt, record s { users = Dict.put s.users user.id (overlay now user existing) })

unfoldable pub update : Time → User → MemoryStore → Result (Unit {0}) × MemoryStore
unfolding update_existing
update now user s = elim (live (Dict.get s.users user.id)) [
  | none ↦ (err Error.user_not_found, s)
  | some existing ↦ update_existing now user existing s
]

-- Soft deletion: the user is marked, and stays in the indexes.
unfoldable pub delete : Time → String → MemoryStore → Result (Unit {0}) × MemoryStore
delete now id s = elim (live (Dict.get s.users id)) [
  | none ↦ (err Error.user_not_found, s)
  | some u ↦ (
    ok tt,
    record s {
      users = Dict.put s.users id (record u { status = user_status_deleted; updated_at = now });
    },
  )
]

-- What the loop of `List` collects.
unfoldable pub live_users : Order User → MemoryStore → List User
live_users order s = select (λ u. not (is_deleted u)) (order (Dict.values s.users))

unfoldable pub list : Order User → ℤ → ℤ → MemoryStore → Result (List User × ℕ)
list order offset limit s = page (live_users order s) offset limit

-- `strings.Contains(text, part)`
unfoldable pub contains : String → String → Bool
contains text part = elim (find? text part) [ none ↦ false | some _ ↦ true ]

-- The test of `Search` on one user, by the lowered query. `lower` stands for `strings.ToLower`,
-- which goes by the Unicode tables.
abbrev pub matches : (String → String) → String → User → Bool
matches lower query u =
    contains (lower u.username) query
    || contains (lower u.email) query
    || contains (lower u.display_name) query

-- What the loop of `Search` collects, by the lowered query.
unfoldable pub matched_users : (String → String) → Order User → String → MemoryStore → List User
matched_users lower order query s =
    select (λ u. not (is_deleted u) && matches lower query u) (order (Dict.values s.users))

unfoldable pub search_users :
    (String → String) → Order User → String → ℤ → ℤ → MemoryStore → Result (List User × ℕ)
search_users lower order query offset limit s =
    page (matched_users lower order (lower query) s) offset limit
