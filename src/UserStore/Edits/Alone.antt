-- ===== src/UserStore/Edits/Alone.antt =====
-- A call with no other one between its operations.
use auth_imp.Base.{String, ◌≡◌, inl, inr, Bool-cases, Option-cases, arith}
use auth_imp.Dict
use auth_imp.Model.{Time, User}
use auth_imp.UserStore.{MemoryStore, update, delete, live, moves_email}
use auth_imp.UserStore.Outcomes.{
  update_missing, update_kept_email, update_email_taken, update_email_free, delete_missing,
  delete-live,
}
use auth_imp.UserStore.Edits.{update_call, delete_call, load, returned, perform, alone}

-- Four operations of an update with no other call between them are the whole call: it has returned,
-- with the result and the store of `update`, the operation as one step.
pub alone-update :
    (now : Time) (user : User) (s : MemoryStore)
    → alone 4 now (update_call user) load s
      ≡ (returned (update now user s).0, (update now user s).1)
unfolding alone perform
alone-update now user s = elim (Option-cases (live (Dict.get s.users user.id))) [
  | inl missing ↦ ground (arith, missing, update_missing now user s missing)
  | inr (old, alive) ↦ elim (Bool-cases (moves_email user old)) [
    | inr kept ↦ ground (arith, alive, kept, update_kept_email now user s old alive kept)
    | inl moved ↦ elim (Option-cases (Dict.get s.by_email user.email)) [
      | inl free ↦
          ground (arith, alive, moved, free, update_email_free now user s old alive moved free)
      | inr (_, taken) ↦
          ground (arith, alive, moved, taken, update_email_taken now user s old alive moved taken)
    ]
  ]
]

-- Two operations of a deletion are the whole call, in the same way.
pub alone-delete :
    (now : Time) (id : String) (s : MemoryStore)
    → alone 2 now (delete_call id) load s ≡ (returned (delete now id s).0, (delete now id s).1)
unfolding alone perform
alone-delete now id s = elim (Option-cases (live (Dict.get s.users id))) [
  | inl missing ↦ ground (arith, missing, delete_missing now id s missing)
  | inr (old, alive) ↦ ground (arith, alive, delete-live now id s old alive)
]
