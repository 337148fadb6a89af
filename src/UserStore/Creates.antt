-- ===== src/UserStore/Creates.antt =====
-- `MemoryStore.Create`: when it is refused, and what the lookups show afterwards.
use auth_imp.Base.{
  String, ◌≡◌, ◌≢◌, refl, ◌↔◌, ◌⊎◌, some, false, arith, inl, inr, eq_iff, eq_refl, Option-cases,
  text_cases, ne→test,
}
use auth_imp.Errors.{Error, ok, err}
use auth_imp.Dict
use auth_imp.Dict.{get-put, get-remove}
use auth_imp.Model.{Time, User, user_status_deleted}
use auth_imp.UserStore.{
  MemoryStore, create, get_by_id, get_by_username, get_by_email, stamp_new, is_deleted,
}
use auth_imp.UserStore.Outcomes.{create_taken, create_email_taken, create_free}
use auth_imp.UserStore.Invariant.{IsUserStore}

-- The two stores give every lookup the same answer.
pub record SameView (s t : MemoryStore) : Type 0 where
  pub same_users : (k : String) → Dict.get t.users k ≡ Dict.get s.users k
  pub same_usernames : (k : String) → Dict.get t.by_username k ≡ Dict.get s.by_username k
  pub same_emails : (k : String) → Dict.get t.by_email k ≡ Dict.get s.by_email k

pub SameView-refl : (s : MemoryStore) → SameView s s
SameView-refl s = record {
  same_users = λ k. refl;
  same_usernames = λ k. refl;
  same_emails = λ k. refl;
}

-- A stored user, deleted or not, has the username or the email.
abbrev pub IsTaken : MemoryStore → User → Type 0
IsTaken s user =
    (i : String) × (v : User) × (Dict.get s.users i ≡ some v)
    × ((v.username ≡ user.username) ⊎ (v.email ≡ user.email))

-- A user is created alive, unless the caller gave it the status of a deleted one.
stamp_new-alive :
    (now : Time) (user : User)
    → user.status ≢ user_status_deleted
    → is_deleted (stamp_new now user) ≡ false
unfolding stamp_new
stamp_new-alive now user kept = elim (text_cases user.status "") [
  | inl e ↦ rw e.0
  | inr e ↦ rw e.0 (ne→test kept)
]

module _ (now : Time) (user : User) (s : MemoryStore) where
  -- What a successful creation returns.
  pub create_ok : (u : User) → (create now user s).0 ≡ ok u → u ≡ stamp_new now user
  create_ok u e = elim (Option-cases (Dict.get s.by_username user.username)) [
    | inr (owner, taken) ↦ absurd (ground (arith, e, create_taken now user s taken))
    | inl free ↦ elim (Option-cases (Dict.get s.by_email user.email)) [
      | inr (owner, taken) ↦ absurd (ground (arith, e, create_email_taken now user s free taken))
      | inl free_email ↦ ground (arith, e, create_free now user s free free_email)
    ]
  ]

  -- A user that is created, and whose status is not that of a deleted one, is what the store
  -- returns for its id, for its username and for its email.
  pub create_found :
      (u : User)
      → user.status ≢ user_status_deleted
      → (create now user s).0 ≡ ok u
      → let t = (create now user s).1 in
        (get_by_id user.id t ≡ ok u)
        × (get_by_username user.username t ≡ ok u)
        × (get_by_email user.email t ≡ ok u)
  unfolding get_by_id get_by_username get_by_email
  create_found u kept e = elim (Option-cases (Dict.get s.by_username user.username)) [
    | inr (owner, taken) ↦ absurd (ground (arith, e, create_taken now user s taken))
    | inl free ↦ elim (Option-cases (Dict.get s.by_email user.email)) [
      | inr (owner, taken) ↦ absurd (ground (arith, e, create_email_taken now user s free taken))
      | inl free_email ↦
          let created = stamp_new now user in
          rw (create_free now user s free free_email) (
            ground (
              arith,
              e,
              create_free now user s free free_email,
              stamp_new-alive now user kept,
              get-put s.users user.id created user.id,
              get-put s.by_username user.username user.id user.username,
              get-put s.by_email user.email user.id user.email,
              eq_refl user.id,
              eq_refl user.username,
              eq_refl user.email,
            ))
    ]
  ]

  module _ (h : IsUserStore s) where
    refused-IsTaken : (create now user s).0 ≡ err Error.user_already_exists → IsTaken s user
    refused-IsTaken e = elim (Option-cases (Dict.get s.by_username user.username)) [
      | inr (owner, taken) ↦
          let (v, stored, same) = h.usernames.sound user.username owner taken in
          (owner, v, stored, inl same)
      | inl free ↦ elim (Option-cases (Dict.get s.by_email user.email)) [
        | inr (owner, taken) ↦
            let (v, stored, same) = h.emails.sound user.email owner taken in
            (owner, v, stored, inr same)
        | inl free_email ↦ absurd (ground (arith, e, create_free now user s free free_email))
      ]
    ]

    IsTaken-refused : IsTaken s user → (create now user s).0 ≡ err Error.user_already_exists
    IsTaken-refused (i, v, stored, inl same) =
        ground (
          arith,
          create_taken now user s {owner = i} (rw (← same) (h.usernames.complete i v stored)),
        )
    IsTaken-refused (i, v, stored, inr same) =
        let taken = rw same at (h.emails.complete i v stored) in
        elim (Option-cases (Dict.get s.by_username user.username)) [
          | inr (owner, e) ↦ ground (arith, create_taken now user s e)
          | inl free ↦ ground (arith, create_email_taken now user s free taken)
        ]

    -- In a store with the user store's invariant, a creation is refused exactly when a stored
    -- user, deleted or not, has the username or the email.
    pub create_refused_iff :
        ((create now user s).0 ≡ err Error.user_already_exists) ↔ IsTaken s user
    create_refused_iff = (refused-IsTaken, IsTaken-refused)

  -- A refused creation leaves every lookup as it was: the username that it had put into the index
  -- before it met the email is taken back.
  pub create_refused_same :
      (e : Error) → (create now user s).0 ≡ err e → SameView s (create now user s).1
  create_refused_same e r = elim (Option-cases (Dict.get s.by_username user.username)) [
    | inr (owner, taken) ↦ rw (create_taken now user s taken) (SameView-refl s)
    | inl free ↦ elim (Option-cases (Dict.get s.by_email user.email)) [
      | inr (owner, taken) ↦ rw (create_email_taken now user s free taken) (record {
        same_users = λ k. refl;
        same_usernames = λ k. ground (
          arith,
          free,
          get-put s.by_username user.username user.id k,
          get-remove (Dict.put s.by_username user.username user.id) user.username k,
          eq_iff user.username k,
        );
        same_emails = λ k. refl;
      })
      | inl free_email ↦ absurd (ground (arith, r, create_free now user s free free_email))
    ]
  ]
