-- ===== src/System/Moves.antt =====
-- A request leaves the directory alone or takes one step of the directory service.
use auth_imp.Base.{String, ◌≡◌, ◌⊎◌, ap, subst, sym, inl, inr, refl, none, true, false, Bool}
use auth_imp.Errors.{Result, Result-cases, ok, err, panic}
use auth_imp.Dict
use auth_imp.Model.{Time, CreateUserRequest, UpdateUserRequest}
use auth_imp.Auth.{Service, Jwt, hash_password}
use auth_imp.UserStore.{MemoryStore}
use auth_imp.UserStore.Invariant as UserRuns
use auth_imp.UserService.{
  create_user, update_user, delete_user, set_online, logout, login, after_update, new_user,
  requested, online_mark, verify_credentials,
}
use auth_imp.DirectoryService.{DirectoryService}
use auth_imp.DirectoryService.Stores.{Step, user_step}

-- Nothing, or one step.
abbrev pub Moves : DirectoryService → DirectoryService → Type 0
Moves s t = (t ≡ s) ⊎ Step s t

abbrev UserMoves : MemoryStore → MemoryStore → Type 0
UserMoves s t = (t ≡ s) ⊎ UserRuns.Step s t

pub users-Moves :
    (s : DirectoryService) (t : MemoryStore)
    → UserMoves s.user_store t
    → Moves s (record s { user_store = t })
users-Moves s t (inl same) = inl (ap (λ u. record s { user_store = u }) same)
users-Moves s t (inr step) = inr (user_step s t step)

module _ (now : Time) (id : String) (s : MemoryStore) where
  pub create_user-UserMoves :
      (req : CreateUserRequest)
      → Dict.get s.users id ≡ none
      → UserMoves s (create_user now id req s).1
  unfolding create_user
  create_user-UserMoves req fresh = elim (Result-cases (hash_password req.password)) [
    | inl (hash, e) ↦
        rw (e, create_user) (inr (UserRuns.create_step now (new_user id req hash) s fresh))
    | inr (inl (_, e)) ↦ rw (e, create_user) (inl refl)
    | inr (inr e) ↦ rw (e, create_user) (inl refl)
  ]

  after_update-store : (p : Result (Unit {0}) × MemoryStore) → (after_update id p).1 ≡ p.1
  after_update-store (ok _, t) = refl
  after_update-store (err _, t) = refl
  after_update-store (panic, t) = refl

  pub update_user-UserMoves : (req : UpdateUserRequest) → UserMoves s (update_user now id req s).1
  unfolding update_user
  update_user-UserMoves req = inr (
      subst (UserRuns.Step s) (sym (after_update-store _))
        (UserRuns.update_step now (requested id req) s))

  pub delete_user-UserMoves : UserMoves s (delete_user now id s).1
  unfolding delete_user
  delete_user-UserMoves = inr (UserRuns.delete_step now id s)

  pub set_online-UserMoves : (online : Bool) → UserMoves s (set_online now id online s).1
  unfolding set_online
  set_online-UserMoves online = inr (UserRuns.update_step now (online_mark id online) s)

  pub logout-UserMoves : UserMoves s (logout now id s).1
  unfolding logout
  logout-UserMoves = inr (UserRuns.update_step now (online_mark id false) s)

pub login-UserMoves :
    (jwt : Jwt) (auth : Service) (now : Time) (username password : String) (s : MemoryStore)
    → UserMoves s (login jwt auth now username password s).1
unfolding login
login-UserMoves jwt auth now username password s =
    elim (Result-cases (verify_credentials username password s)) [
      | inl (u, e) ↦ rw (e, login) (inr (UserRuns.update_step now (online_mark u.id true) s))
      | inr (inl (_, e)) ↦ rw (e, login) (inl refl)
      | inr (inr e) ↦ rw (e, login) (inl refl)
    ]
