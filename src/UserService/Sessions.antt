-- ===== src/UserService/Sessions.antt =====
-- The online mark: `Login`, `Logout`, `SetOnline`, and what `UpdateUser` does to it.
use auth_imp.Base.{
  String, ◌≡◌, refl, Bool, true, false, none, some, arith, inl, inr, eq_iff, eq_refl, ◌==◌,
  if◌then◌else◌, Option-cases,
}
use auth_imp.Base.Int.{ℤ}
use auth_imp.Errors.{Error, Result, ok, err, panic, Result-cases}
use auth_imp.Dict
use auth_imp.Model.{Time, User, user_status_deleted, UpdateUserRequest, LoginResponse}
use auth_imp.Auth.{Service, Jwt, generate_token}
use auth_imp.UserStore.{MemoryStore, update, get_by_id, live, moves_email}
use auth_imp.UserStore.Invariant.{IsUserStore, stored_of_live}
use auth_imp.UserStore.Outcomes.{update_kept_email, update_missing}
use auth_imp.UserStore.Updates.{update_effect}
use auth_imp.UserStore.Reads.{get_by_id_stored, get_by_id_of_live}
use auth_imp.UserService.{
  update_user, verify_credentials, set_online, logout, login, online_mark, requested,
  login_response,
}
use auth_imp.UserService.Credentials.{verify_credentials_iff}

abbrev pub marked : Time → Bool → User → User
marked now online old = record old { is_online = online; updated_at = now }

-- An update by the online mark alone succeeds on a live user, and changes nothing but the mark and
-- the time of the update, of that user alone.
module _ (now : Time) (id : String) (online : Bool) (s : MemoryStore) (old : User)
    (alive : live (Dict.get s.users id) ≡ some old) where
  mark_effect :
      ((update now (online_mark id online) s).0 ≡ ok tt)
      × ((j : String)
          → Dict.get (update now (online_mark id online) s).1.users j
            ≡ (if id == j then some (marked now online old) else Dict.get s.users j))
  mark_effect =
      let done : (update now (online_mark id online) s).0 ≡ ok tt =
        ground (arith, update_kept_email now (online_mark id online) s old alive refl) in
      (done, λ j. update_effect now (online_mark id online) s old alive done j)

module _ (now : Time) (id : String) (s : MemoryStore) where
  -- `SetOnline` succeeds on a live user, and changes nothing but its mark and the time of its
  -- update; no other user changes.
  pub set_online_effect :
      (online : Bool) (old : User)
      → live (Dict.get s.users id) ≡ some old
      → ((set_online now id online s).0 ≡ ok tt)
        × ((j : String)
            → Dict.get (set_online now id online s).1.users j
              ≡ (if id == j then some (marked now online old) else Dict.get s.users j))
  unfolding set_online
  set_online_effect online old alive = mark_effect now id online s old alive

  -- `Logout` succeeds on a live user, and takes the mark from it alone.
  pub logout_effect :
      (old : User)
      → live (Dict.get s.users id) ≡ some old
      → ((logout now id s).0 ≡ ok tt)
        × ((j : String)
            → Dict.get (logout now id s).1.users j
              ≡ (if id == j then some (marked now false old) else Dict.get s.users j))
  unfolding logout
  logout_effect old alive = mark_effect now id false s old alive

  -- `Logout` undoes what `SetOnline` did: the user is as it was before it came online, but for the
  -- time of the update.
  pub logout-set_online :
      (later : Time) (old : User)
      → live (Dict.get s.users id) ≡ some old
      → old.is_online ≡ false
      → (j : String)
      → Dict.get (logout later id (set_online now id true s).1).1.users j
        ≡ (if id == j then some (record old { updated_at = later }) else Dict.get s.users j)
  unfolding set_online logout
  logout-set_online later old alive off j =
      let (done, at) = mark_effect now id true s old alive in
      let t = (update now (online_mark id true) s).1 in
      let there : live (Dict.get t.users id) ≡ some (marked now true old) =
        ground (arith, at id, eq_refl id, alive) in
      let (_, back) = mark_effect later id false t (marked now true old) there in
      ground (arith, back j, at j, off)

  module _ (req : UpdateUserRequest) where
    -- When `UpdateUser` succeeds, the user that it returns is what the store holds under the id,
    -- and it is not online, whatever it was before.
    pub update_user_offline :
        (u : User)
        → (update_user now id req s).0 ≡ ok u
        → (get_by_id id (update_user now id req s).1 ≡ ok u) × (u.is_online ≡ false)
    unfolding update_user
    update_user_offline u e = elim (Option-cases (live (Dict.get s.users id))) [
      | inl missing ↦ absurd (ground (arith, e, update_missing now (requested id req) s missing))
      | inr (old, alive) ↦ elim (Result-cases (update now (requested id req) s).0) [
        | inr (inl (x, failed)) ↦ absurd (ground (arith, e, failed))
        | inr (inr failed) ↦ absurd (ground (arith, e, failed))
        | inl (x, done) ↦
            let t = (update now (requested id req) s).1 in
            let read : get_by_id id t ≡ ok u = ground (arith, e, done) in
            let stored = stored_of_live t id u (get_by_id_stored id u t read) in
            let effect = update_effect now (requested id req) s old alive done id in
            (ground (arith, done, read), ground (arith, stored, effect, eq_refl id))
      ]
    ]

    -- `UpdateUser` of a live user with the status of a deleted one and no email answers that there
    -- is no such user, and leaves none that is live under the id.
    pub update_user_deletes :
        (old : User)
        → live (Dict.get s.users id) ≡ some old
        → req.status ≡ user_status_deleted
        → req.email ≡ ""
        → ((update_user now id req s).0 ≡ err Error.user_not_found)
          × (live (Dict.get (update_user now id req s).1.users id) ≡ none)
    unfolding update_user
    update_user_deletes old alive dead kept =
        let user = requested id req in
        let still : moves_email user old ≡ false = ground (arith, kept, eq_iff req.email "") in
        let done : (update now user s).0 ≡ ok tt =
          ground (arith, update_kept_email now user s old alive still) in
        let t = (update now user s).1 in
        let effect = update_effect now user s old alive done id in
        let gone : live (Dict.get t.users id) ≡ none = rw (effect, eq_refl id, dead) refl in
        (ground (arith, done, gone, get_by_id_of_live id t), ground (arith, done, gone))

response_user :
    (jwt : Jwt) (u : User) (g : Result (jwt.Token × ℤ)) (r : LoginResponse jwt.Token)
    → login_response jwt u g ≡ ok r
    → r.user ≡ record u { is_online = true }
response_user jwt u (ok (token, expires)) r e = ground (arith, e)
response_user jwt u (err x) r e = absurd (ground (arith, e))
response_user jwt u panic r e = absurd (ground (arith, e))

module _ (jwt : Jwt) (auth : Service) (now : Time) (username password : String) (s : MemoryStore)
    (h : IsUserStore s) where
  -- In a store with the user store's invariant, a login that succeeds answers with the user of the
  -- credentials, marked as online, stores it with the mark and the time, and changes what is
  -- stored under no other id.
  pub login_effect :
      (r : LoginResponse jwt.Token)
      → (login jwt auth now username password s).0 ≡ ok r
      → (u : User) × (verify_credentials username password s ≡ ok u)
        × (r.user ≡ record u { is_online = true })
        × (get_by_id u.id (login jwt auth now username password s).1 ≡ ok (marked now true u))
        × ((j : String)
            → Dict.get (login jwt auth now username password s).1.users j
              ≡ (if u.id == j then some (marked now true u) else Dict.get s.users j))
  unfolding login
  login_effect r e = elim (Result-cases (verify_credentials username password s)) [
    | inr (inl (x, failed)) ↦ absurd (ground (arith, e, failed))
    | inr (inr failed) ↦ absurd (ground (arith, e, failed))
    | inl (u, verified) ↦
        let alive = ((verify_credentials_iff s h username password u).0 verified).0 in
        let there : live (Dict.get s.users u.id) ≡ some u = ground (arith, alive) in
        let (done, at) = mark_effect now u.id true s u there in
        let t = (update now (online_mark u.id true) s).1 in
        (
          u,
          verified,
          response_user jwt u (generate_token jwt auth now u.id u.username) r
              (ground (arith, e, verified)),
          ground (arith, verified, at u.id, eq_refl u.id, alive, get_by_id_of_live u.id t),
          λ j. ground (arith, verified, at j),
        )
  ]
