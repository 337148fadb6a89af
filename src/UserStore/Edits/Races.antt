-- ===== src/UserStore/Edits/Races.antt =====
-- Calls that interleave.
use auth_imp.Base.{◌≡◌, refl, some, true, false, [], ◌∷◌, arith, eq_refl, eq_iff}
use auth_imp.Errors.{ok}
use auth_imp.Dict
use auth_imp.Dict.{get-put}
use auth_imp.Model.{Time, User, user_status_deleted}
use auth_imp.UserStore.{MemoryStore, live, get_by_id, overlay, moves_email}
use auth_imp.UserStore.Edits.{
  update_call, delete_call, load, returned, perform, Pair, turn, interleaved, edited,
}

module _ (now : Time) (user old : User) (s : MemoryStore)
    (alive : live (Dict.get s.users user.id) ≡ some old) (kept : moves_email user old ≡ false) where
  -- The update loads the user, the deletion loads and stores it, and the update stores it.
  abbrev pub raced : Pair
  raced =
      interleaved now (update_call user) (delete_call user.id) (true ∷ false ∷ false ∷ true ∷ [])
        (record { store = s; first = load; second = load })

  abbrev loser : User
  loser = record old { status = user_status_deleted; updated_at = now }

  abbrev outcome : Pair
  outcome = record {
    store = record s {
      users = Dict.put (Dict.put s.users user.id loser) user.id (overlay now user old);
    };
    first = returned (ok tt);
    second = returned (ok tt);
  }

  raced-outcome : raced ≡ outcome
  unfolding interleaved turn perform edited
  raced-outcome = rw (alive, kept) refl

  -- An update that has loaded a live user, and neither moves its email nor gives it another status,
  -- undoes a deletion that begins and ends before it goes on: both calls return without an error,
  -- and the user is found by its id as the update made it.
  pub delete_undone :
      user.status ≡ ""
      → (raced.first ≡ returned (ok tt))
        × (raced.second ≡ returned (ok tt))
        × (get_by_id user.id raced.store ≡ ok (overlay now user old))
  unfolding get_by_id overlay
  delete_undone blank = rw raced-outcome (
    refl,
    refl,
    ground (
      arith,
      alive,
      blank,
      eq_refl user.id,
      get-put (Dict.put s.users user.id loser) user.id (overlay now user old) user.id,
      eq_iff user.status "",
    ),
  )
