-- ===== src/UserService/Refusals.antt =====
-- What the calls of the user service leave where they return no value.
use auth_imp.Base.{
  String, ◌≡◌, ◌⊎◌, inl, inr, ap, Bool, false, some, Option-cases, Bool-cases, arith, eq_refl,
  text_cases,
}
use auth_imp.Errors.{Error, Result, ok, err, panic, Result-cases}
use auth_imp.Dict
use auth_imp.Model.{Time, User, CreateUserRequest, UpdateUserRequest, user_status_deleted}
use auth_imp.Auth.{hash_password}
use auth_imp.UserStore.{MemoryStore, create, update, delete, live, get_by_id, moves_email}
use auth_imp.UserStore.Outcomes.{
  create_taken, create_email_taken, create_free, update_missing, update_kept_email,
  update_email_taken, update_email_free,
}
use auth_imp.UserStore.Updates.{update_effect, updated}
use auth_imp.UserStore.Reads.{get_by_id_of_live}
use auth_imp.UserStore.Creates.{SameView, SameView-refl, create_refused_same}
use auth_imp.UserService.{
  create_user, update_user, delete_user, set_online, logout, requested, online_mark, new_user,
}

-- Where a call returned no value, every lookup in the store is as before.
abbrev pub IsSilent : {A : Type 0} → MemoryStore → Result A × MemoryStore → Type 0
IsSilent s (ok _, t) = Unit {0}
IsSilent s (err _, t) = SameView s t
IsSilent s (panic, t) = SameView s t

create-IsSilent : (now : Time) (user : User) (s : MemoryStore) → IsSilent s (create now user s)
create-IsSilent now user s = elim (Option-cases (Dict.get s.by_username user.username)) [
  | inr (_, taken) ↦ rw (create_taken now user s taken) (SameView-refl s)
  | inl free ↦ elim (Option-cases (Dict.get s.by_email user.email)) [
    | inl unused ↦ rw (create_free now user s free unused) tt
    | inr (_, taken) ↦
        let same =
          create_refused_same now user s Error.user_already_exists
            (ap (λ p. p.0) (create_email_taken now user s free taken)) in
        rw (create_email_taken now user s free taken)
          (rw (create_email_taken now user s free taken) at same)
  ]
]

-- An update fails and leaves the store as it was, or succeeds.
update_cases :
    (now : Time) (user : User) (s : MemoryStore)
    → ((e : Error) × (update now user s ≡ (err e, s)))
      ⊎ ((old : User) × (live (Dict.get s.users user.id) ≡ some old)
          × ((update now user s).0 ≡ ok tt))
update_cases now user s = elim (Option-cases (live (Dict.get s.users user.id))) [
  | inl missing ↦ inl (Error.user_not_found, update_missing now user s missing)
  | inr (old, alive) ↦ elim (Bool-cases (moves_email user old)) [
    | inr kept ↦ inr (old, alive, ap (λ p. p.0) (update_kept_email now user s old alive kept))
    | inl moved ↦ elim (Option-cases (Dict.get s.by_email user.email)) [
      | inl free ↦
          inr (old, alive, ap (λ p. p.0) (update_email_free now user s old alive moved free))
      | inr (_, taken) ↦
          inl (Error.user_already_exists, update_email_taken now user s old alive moved taken)
    ]
  ]
]

module _ (now : Time) (id : String) (s : MemoryStore) where
  pub create_user-IsSilent : (req : CreateUserRequest) → IsSilent s (create_user now id req s)
  unfolding create_user
  create_user-IsSilent req = elim (Result-cases (hash_password req.password)) [
    | inl (hash, e) ↦ rw (e, create_user) (create-IsSilent now (new_user id req hash) s)
    | inr (inl (_, e)) ↦ rw (e, create_user) (SameView-refl s)
    | inr (inr e) ↦ rw (e, create_user) (SameView-refl s)
  ]

  pub delete_user-IsSilent : IsSilent s (delete_user now id s)
  unfolding delete_user delete
  delete_user-IsSilent = elim (Option-cases (live (Dict.get s.users id))) [
    | inl e ↦ rw (e, delete) (SameView-refl s)
    | inr (_, e) ↦ rw (e, delete) tt
  ]

  mark-IsSilent : (online : Bool) → IsSilent s (update now (online_mark id online) s)
  unfolding update
  mark-IsSilent online = elim (Option-cases (live (Dict.get s.users id))) [
    | inl e ↦ rw (e, update) (SameView-refl s)
    | inr (_, e) ↦ rw (e, update) tt
  ]

  pub set_online-IsSilent : (online : Bool) → IsSilent s (set_online now id online s)
  unfolding set_online
  set_online-IsSilent online = mark-IsSilent online

  pub logout-IsSilent : IsSilent s (logout now id s)
  unfolding logout
  logout-IsSilent = mark-IsSilent false

  pub update_user-IsSilent :
      (req : UpdateUserRequest)
      → IsSilent s (update_user now id req s) ⊎ (req.status ≡ user_status_deleted)
  unfolding update_user
  update_user-IsSilent req = elim (update_cases now (requested id req) s) [
    | inl (e, failed) ↦ inl (rw failed (SameView-refl s))
    | inr (old, alive, done) ↦ elim (text_cases req.status user_status_deleted) [
      | inl (_, deleted) ↦ inr deleted
      | inr (other, _) ↦
          let t = (update now (requested id req) s).1 in
          let effect = update_effect now (requested id req) s old alive done id in
          let there : get_by_id id t ≡ ok (updated now (requested id req) s old) =
            ground (arith, get_by_id_of_live id t, effect, eq_refl id, other, alive) in
          inl (ground (arith, done, there))
    ]
  ]
