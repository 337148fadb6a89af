-- ===== src/UserStore/Reads.antt =====
-- The lookups against a scan of the stored users.
use auth_imp.Base.{
  String, ◌≡◌, refl, ◌↔◌, Option, none, some, false, arith, inl, inr, ◌⊎◌, Option-cases,
}
use auth_imp.Errors.{Error, ok, err, Result}
use auth_imp.Dict
use auth_imp.Dict.{Dict}
use auth_imp.Model.{User}
use auth_imp.UserStore.{
  MemoryStore, get_by_id, get_by_username, get_by_email, is_deleted, live, found,
}
use auth_imp.UserStore.Index.{IsIndex}
use auth_imp.UserStore.Invariant.{IsUserStore, username_of, email_of}

-- A user that is stored and not marked as deleted.
abbrev pub IsLive : MemoryStore → User → Type 0
IsLive s u = (Dict.get s.users u.id ≡ some u) × (is_deleted u ≡ false)

found-live :
    (o : Option User) (u : User) → found (live o) ≡ ok u → (o ≡ some u) × (is_deleted u ≡ false)
found-live o u e = ground arith

found-live_alive :
    (o : Option User) (u : User) → o ≡ some u → is_deleted u ≡ false → found (live o) ≡ ok u
found-live_alive o u e d = ground arith

-- The lookup through an index, at one field.
abbrev by_index : Dict String → String → MemoryStore → Result User
by_index index key s = elim (Dict.get index key) [
  | none ↦ err Error.user_not_found
  | some id ↦ get_by_id id s
]

module _ (s : MemoryStore) (h : IsUserStore s) where
  -- `GetByID` returns exactly the live user that has the id.
  pub get_by_id_iff :
      (id : String) (u : User) → (get_by_id id s ≡ ok u) ↔ (IsLive s u × (u.id ≡ id))
  unfolding get_by_id
  get_by_id_iff id u = (
    (λ e.
        let (stored, alive) = found-live (Dict.get s.users id) u e in
        let at = h.keyed id u stored in ((ground arith, alive), at)),
    λ p. ground (arith, found-live_alive (Dict.get s.users id) u),
  )

  module _ (field : User → String) (index : Dict String) (by : IsIndex field s.users index) where
    by_index_iff :
        (key : String) (u : User) → (by_index index key s ≡ ok u) ↔ (IsLive s u × (field u ≡ key))
    unfolding get_by_id
    by_index_iff key u = (
      (λ e. elim (Option-cases (Dict.get index key)) [
        | inl missing ↦ absurd (ground (arith, e, missing))
        | inr (id, at) ↦
            let (stored, alive) = found-live (Dict.get s.users id) u (ground (arith, e, at)) in
            let (v, stored_v, key_v) = by.sound key id at in
            (
              (ground (arith, stored, h.keyed id u stored), alive),
              ground (arith, stored, stored_v, key_v),
            )
      ]),
      λ p. ground (
        arith,
        by.complete u.id u p.0.0,
        found-live_alive (Dict.get s.users u.id) u p.0.0 p.0.1,
        p.1,
      ),
    )

  -- In a store with the user store's invariant, `GetByUsername` gives a user exactly when it is
  -- live and has the username.
  pub get_by_username_iff :
      (username : String) (u : User)
      → (get_by_username username s ≡ ok u) ↔ (IsLive s u × (u.username ≡ username))
  unfolding get_by_username
  get_by_username_iff = by_index_iff username_of s.by_username h.usernames

  -- `GetByEmail` returns exactly the live user that has the email.
  pub get_by_email_iff :
      (email : String) (u : User) → (get_by_email email s ≡ ok u) ↔ (IsLive s u × (u.email ≡ email))
  unfolding get_by_email
  get_by_email_iff = by_index_iff email_of s.by_email h.emails

  -- In a store with the user store's invariant, two stored users, deleted or not, that share a
  -- username or an email are one user under one id.
  pub stored_unique :
      (i j : String) (u v : User)
      → Dict.get s.users i ≡ some u
      → Dict.get s.users j ≡ some v
      → (u.username ≡ v.username) ⊎ (u.email ≡ v.email)
      → (i ≡ j) × (u ≡ v)
  stored_unique i j u v at_i at_j (inl same) =
      let e : some i ≡ some j =
        ground (arith, same, h.usernames.complete i u at_i, h.usernames.complete j v at_j) in
      (cc e, cc (e, at_i, at_j))
  stored_unique i j u v at_i at_j (inr same) =
      let e : some i ≡ some j =
        ground (arith, same, h.emails.complete i u at_i, h.emails.complete j v at_j) in
      (cc e, cc (e, at_i, at_j))

-- A lookup by username finds a user, or says that there is none; it never panics.
pub get_by_username_cases :
    (username : String) (s : MemoryStore)
    → ((u : User) × (get_by_username username s ≡ ok u))
      ⊎ (get_by_username username s ≡ err Error.user_not_found)
unfolding get_by_username get_by_id
get_by_username_cases username s = elim (Option-cases (Dict.get s.by_username username)) [
  | inl missing ↦ inr (ground arith)
  | inr (id, at) ↦ elim (Option-cases (live (Dict.get s.users id))) [
    | inl gone ↦ inr (ground arith)
    | inr (u, alive) ↦ inl (u, ground arith)
  ]
]

-- What is found by id is live in the store, at the id.
pub get_by_id_stored :
    (id : String) (u : User) (s : MemoryStore)
    → get_by_id id s ≡ ok u
    → live (Dict.get s.users id) ≡ some u
unfolding get_by_id
get_by_id_stored id u s e = ground arith

pub get_by_id_of_live :
    (id : String) (s : MemoryStore) → get_by_id id s ≡ found (live (Dict.get s.users id))
unfolding get_by_id
get_by_id_of_live id s = refl
