-- ===== src/UserService/Credentials.antt =====
-- Registration and `VerifyCredentials`.
use auth_imp.Base.{
  String, ◌≡◌, ◌≢◌, refl, ap, subst, ◌∙◌, ◌↔◌, ◌⊎◌, arith, inl, inr, eq_iff, text_cases,
}
use auth_imp.Errors.{Error, ok, err, Result-cases}
use auth_imp.Model.{Time, User, user_status_active, user_status_deleted, CreateUserRequest}
use auth_imp.Auth.{hash_password, verify_password}
use auth_imp.UserStore.{MemoryStore, create, stamp_new}
use auth_imp.UserStore.Invariant.{IsUserStore}
use auth_imp.UserStore.Reads.{IsLive, get_by_username_iff, get_by_username_cases}
use auth_imp.UserStore.Creates.{
  SameView, SameView-refl, create_ok, create_found, create_refused_same,
}
use auth_imp.UserService.{create_user, verify_credentials, check_user, new_user}

abbrev pub IsActive : User → Type 0
IsActive u = u.status ≡ user_status_active

check_user_iff :
    (password : String) (u v : User)
    → (check_user password u ≡ ok v) ↔ ((u ≡ v) × IsActive u × (u.password_hash ≡ password))
unfolding verify_password
check_user_iff password u v = (
  (λ e. ground (arith, e, eq_iff u.status user_status_active, eq_iff u.password_hash password)),
  λ p. ground (arith, p, eq_iff u.status user_status_active, eq_iff u.password_hash password),
)

module _ (s : MemoryStore) (h : IsUserStore s) (username password : String) where
  -- In a store with the user store's invariant, credentials give a user exactly when it is live,
  -- has the username, is active, and its stored password is the one given.
  pub verify_credentials_iff :
      (u : User)
      → (verify_credentials username password s ≡ ok u)
        ↔ (IsLive s u × (u.username ≡ username) × IsActive u × (u.password_hash ≡ password))
  unfolding verify_credentials
  verify_credentials_iff u = (
    (λ e. elim (get_by_username_cases username s) [
      | inl (v, at) ↦
          let checked : check_user password v ≡ ok u = ground (arith, e, at) in
          let (same, active, matching) = (check_user_iff password v u).0 checked in
          let (alive, named) = (get_by_username_iff s h username u).0 (at ∙ ap ok same) in
          (
            alive,
            named,
            subst IsActive same active,
            subst (λ (w : User). w.password_hash ≡ password) same matching,
          )
      | inr missing ↦ absurd (ground (arith, e, missing))
    ]),
    λ p.
        let at = (get_by_username_iff s h username u).1 (p.0, p.1) in
        ground (arith, at, (check_user_iff password u u).1 (refl, p.2, p.3)),
  )

  -- Every other answer is one of two errors: a live user of the username that is not active is
  -- reported as disabled, whatever the password; in all other cases the credentials are invalid.
  pub verify_credentials_refused :
      (e : Error)
      → verify_credentials username password s ≡ err e
      → ((e ≡ Error.user_disabled)
          × ((u : User) × IsLive s u × (u.username ≡ username) × (u.status ≢ user_status_active)))
        ⊎ (e ≡ Error.invalid_credentials)
  unfolding verify_credentials
  verify_credentials_refused e r = elim (get_by_username_cases username s) [
    | inr missing ↦ inr (ground (arith, r, missing))
    | inl (u, at) ↦
        let (alive, named) = (get_by_username_iff s h username u).0 at in
        elim (text_cases u.status user_status_active) [
          | inl active ↦ inr (ground (arith, r, at, active.0))
          | inr other ↦ inl (ground (arith, r, at, other.0), (u, alive, named, other.1))
        ]
  ]

-- A password is stored as it is.
hash_password_same : (password hash : String) → hash_password password ≡ ok hash → hash ≡ password
unfolding hash_password
hash_password_same password hash e = ground arith

module _ (now : Time) (id : String) (req : CreateUserRequest) (s : MemoryStore) where
  -- A user that `CreateUser` created passes `VerifyCredentials` at once, with the username and the
  -- password of the request.
  pub verify_credentials-create_user :
      (u : User)
      → (create_user now id req s).0 ≡ ok u
      → verify_credentials req.username req.password (create_user now id req s).1 ≡ ok u
  unfolding create_user verify_credentials stamp_new
  verify_credentials-create_user u e = elim (Result-cases (hash_password req.password)) [
    | inr (inl (x, failed)) ↦ absurd (ground (arith, e, failed))
    | inr (inr failed) ↦ absurd (ground (arith, e, failed))
    | inl (hash, hashed) ↦
        let user = new_user id req hash in
        let done : (create now user s).0 ≡ ok u = ground (arith, e, hashed) in
        let alive : ◌≢◌ {A = String} user_status_active user_status_deleted =
          ground (arith, eq_iff user_status_active user_status_deleted) in
        let at = (create_found now user s u alive done).1 in
        let same = create_ok now user s u done in
        let checked : check_user req.password u ≡ ok u = (check_user_iff req.password u u).1 (
          refl,
          ap (λ (w : User). w.status) same,
          ap (λ (w : User). w.password_hash) same ∙ hash_password_same req.password hash hashed,
        ) in
        rw (hashed, create_user) (ground (arith, at, checked))
  ]

  -- A registration that is refused, for its password or for what is taken, changes no lookup.
  pub create_user_refused :
      (e : Error) → (create_user now id req s).0 ≡ err e → SameView s (create_user now id req s).1
  unfolding create_user
  create_user_refused e r = elim (Result-cases (hash_password req.password)) [
    | inr (inl (x, failed)) ↦ rw (failed, create_user) (SameView-refl s)
    | inr (inr failed) ↦ rw (failed, create_user) (SameView-refl s)
    | inl (hash, hashed) ↦
        rw (hashed, create_user)
          (create_refused_same now (new_user id req hash) s e (ground (arith, r, hashed)))
  ]
