-- ===== src/UserStore/Edits.antt =====
-- Concurrent calls of `Update` and `Delete` of `MemoryStore` (internal/user/memory_store.go): each
-- operation of a sync.Map is atomic, and calls interleave between them.
pub mod Alone
pub mod Races
use auth_imp.Base.{
  ℕ, zero, suc, String, Bool, true, false, Option, none, some, if◌then◌else◌, List, [], ◌∷◌,
}
use auth_imp.Errors.{Error, Result, ok, err}
use auth_imp.Dict
use auth_imp.Model.{Time, User, user_status_deleted}
use auth_imp.UserStore.{MemoryStore, load_or_store, live, overlay, moves_email}

-- A call, with its argument.
pub data Edit : Type 0 where
  update_call : User → Edit
  delete_call : String → Edit

-- What a call does next, with the user that it has loaded; an update also knows whether it moves the
-- email.
pub data Next : Type 0 where
  load : Next
  claim_email free_email : User → Next
  store_user : User → Bool → Next
  returned : Result (Unit {0}) → Next

abbrev pub not_found : Next
not_found = returned (err Error.user_not_found)

-- What a call does with what it loaded.
abbrev pub after_load : Edit → Option User → Next
after_load edit none = not_found
after_load (update_call user) (some existing) =
    if moves_email user existing then claim_email existing else store_user existing false
after_load (delete_call id) (some existing) = store_user existing false

abbrev pub target : Edit → String
target (update_call user) = user.id
target (delete_call id) = id

-- The user that a call stores.
unfoldable pub edited : Time → Edit → User → Bool → User
unfolding overlay
edited now (update_call user) existing moved =
    if moved
    then record (overlay now user existing) { email = user.email }
    else overlay now user existing
edited now (delete_call id) existing moved = record existing {
  status = user_status_deleted;
  updated_at = now;
}

-- The email that an update asks for.
abbrev pub new_email : Edit → User → String
new_email (update_call user) existing = user.email
new_email (delete_call id) existing = existing.email

-- The next operation of a call.
unfoldable pub perform : Time → Edit → Next → MemoryStore → Next × MemoryStore
unfolding load_or_store edited
perform now edit load s = (after_load edit (live (Dict.get s.users (target edit))), s)
perform now edit (claim_email existing) s =
    let (taken, by_email) = load_or_store s.by_email (new_email edit existing) (target edit) in
    if taken
    then (returned (err Error.user_already_exists), s)
    else (free_email existing, record s { by_email = by_email })
perform now edit (free_email existing) s =
    (store_user existing true, record s { by_email = Dict.remove s.by_email existing.email })
perform now edit (store_user existing moved) s = (
  returned (ok tt),
  record s { users = Dict.put s.users (target edit) (edited now edit existing moved) },
)
perform now edit (returned r) s = (returned r, s)

-- A call that runs with no other between its operations, for a number of them.
unfoldable pub alone : ℕ → Time → Edit → Next → MemoryStore → Next × MemoryStore
unfolding perform
alone zero now edit next s = (next, s)
alone (suc n) now edit next s = let (later, t) = perform now edit next s in alone n now edit later t

-- Two calls, with what each does next, over one store.
pub record Pair : Type 0 where
  pub store : MemoryStore
  pub first : Next
  pub second : Next

-- The first call (`true`) or the second one does its next operation.
unfoldable pub turn : Time → Edit → Edit → Bool → Pair → Pair
unfolding perform
turn now one other true p =
    let (next, s) = perform now one p.first p.store in record p { store = s; first = next }
turn now one other false p =
    let (next, s) = perform now other p.second p.store in record p { store = s; second = next }

unfoldable pub interleaved : Time → Edit → Edit → List Bool → Pair → Pair
unfolding turn
interleaved now one other [] p = p
interleaved now one other (b ∷ bs) p = interleaved now one other bs (turn now one other b p)
