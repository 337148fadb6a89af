-- ===== src/UserStore/Invariant.antt =====
-- The invariant of the user store: each user stands under its own id, and the two indexes list
-- every stored user, deleted ones included, under its username and its email, and nothing else.
-- The operations are the steps of a relation. `uuid.New()` is taken to give an id that no stored
-- user has.
use auth_imp.Base.{
  String, ◌≡◌, refl, none, some, true, false, arith, inl, inr, eq_iff, Bool-cases, Option-cases,
}
use auth_imp.Dict
use auth_imp.Dict.{get-put, get-empty}
use auth_imp.Model.{Time, User, user_status_deleted}
use auth_imp.UserStore.{
  MemoryStore, new, create, update, delete, stamp_new, overlay, live, moves_email,
}
use auth_imp.UserStore.Index.{
  IsIndex, put-new-IsIndex, put_same-IsIndex, put_moved-IsIndex, rollback-IsIndex, empty-IsIndex,
}
use auth_imp.UserStore.Outcomes.{
  create_taken, create_email_taken, create_free, update_missing, update_kept_email,
  update_email_taken, update_email_free, delete_missing, delete-live,
}

abbrev pub username_of : User → String
username_of u = u.username

abbrev pub email_of : User → String
email_of u = u.email

pub record IsUserStore (s : MemoryStore) : Type 0 where
  pub keyed : (i : String) (u : User) → Dict.get s.users i ≡ some u → u.id ≡ i
  pub usernames : IsIndex username_of s.users s.by_username
  pub emails : IsIndex email_of s.users s.by_email

pub new-IsUserStore : IsUserStore new
new-IsUserStore = record {
  keyed = λ i u e. absurd (ground (arith, e, get-empty {V = User} i));
  usernames = empty-IsIndex username_of;
  emails = empty-IsIndex email_of;
}

put-keyed :
    (s : MemoryStore) (i : String) (new : User)
    → ((j : String) (u : User) → Dict.get s.users j ≡ some u → u.id ≡ j)
    → new.id ≡ i
    → (j : String) (u : User) → Dict.get (Dict.put s.users i new) j ≡ some u
    → u.id ≡ j
put-keyed s i new h same j u e = ground (arith, e, same, h j u, get-put s.users i new j, eq_iff i j)

-- What is loaded and not deleted is stored.
pub stored_of_live :
    (s : MemoryStore) (i : String) (u : User)
    → live (Dict.get s.users i) ≡ some u
    → Dict.get s.users i ≡ some u
stored_of_live s i u e = ground arith

module _ (now : Time) (user : User) (s : MemoryStore) (h : IsUserStore s) where
  -- Creating a user under a fresh id keeps the invariant, whether it succeeds or not.
  pub create-IsUserStore : Dict.get s.users user.id ≡ none → IsUserStore (create now user s).1
  unfolding stamp_new
  create-IsUserStore fresh = elim (Option-cases (Dict.get s.by_username user.username)) [
    | inr (owner, taken) ↦ rw (create_taken now user s taken) h
    | inl free ↦ elim (Option-cases (Dict.get s.by_email user.email)) [
      | inr (owner, taken) ↦ rw (create_email_taken now user s free taken) (record {
        keyed = h.keyed;
        usernames =
            rollback-IsIndex username_of s.users s.by_username user.username user.id h.usernames
              free;
        emails = h.emails;
      })
      | inl free_email ↦
          let created = stamp_new now user in
          rw (create_free now user s free free_email) (record {
            keyed = put-keyed s user.id created h.keyed refl;
            usernames =
                put-new-IsIndex username_of s.users s.by_username h.usernames user.id created fresh
                  free;
            emails =
                put-new-IsIndex email_of s.users s.by_email h.emails user.id created fresh
                  free_email;
          })
    ]
  ]

  module _ (old : User) (alive : live (Dict.get s.users user.id) ≡ some old) where
    is_stored : Dict.get s.users user.id ≡ some old
    is_stored = stored_of_live s user.id old alive

    update_kept_email-IsUserStore : moves_email user old ≡ false → IsUserStore (update now user s).1
    unfolding overlay
    update_kept_email-IsUserStore e =
        let new = overlay now user old in
        rw (update_kept_email now user s old alive e) (record {
          keyed = put-keyed s user.id new h.keyed (h.keyed user.id old is_stored);
          usernames =
              put_same-IsIndex username_of s.users s.by_username h.usernames user.id new old
                is_stored refl;
          emails =
              put_same-IsIndex email_of s.users s.by_email h.emails user.id new old is_stored refl;
        })

    update_email_free-IsUserStore :
        moves_email user old ≡ true
        → Dict.get s.by_email user.email ≡ none
        → IsUserStore (update now user s).1
    unfolding overlay
    update_email_free-IsUserStore e free =
        let new : User = record (overlay now user old) { email = user.email } in
        rw (update_email_free now user s old alive e free) (record {
          keyed = put-keyed s user.id new h.keyed (h.keyed user.id old is_stored);
          usernames =
              put_same-IsIndex username_of s.users s.by_username h.usernames user.id new old
                is_stored refl;
          emails =
              put_moved-IsIndex email_of s.users s.by_email h.emails user.id new old is_stored free;
        })

  -- Updating a user keeps the invariant, on every branch.
  pub update-IsUserStore : IsUserStore (update now user s).1
  update-IsUserStore = elim (Option-cases (live (Dict.get s.users user.id))) [
    | inl missing ↦ rw (update_missing now user s missing) h
    | inr (old, alive) ↦ elim (Bool-cases (moves_email user old)) [
      | inr kept ↦ update_kept_email-IsUserStore old alive kept
      | inl moved ↦ elim (Option-cases (Dict.get s.by_email user.email)) [
        | inr (owner, taken) ↦ rw (update_email_taken now user s old alive moved taken) h
        | inl free ↦ update_email_free-IsUserStore old alive moved free
      ]
    ]
  ]

-- Deleting a user keeps the invariant: the user stays in both indexes.
pub delete-IsUserStore :
    (now : Time) (id : String) (s : MemoryStore) → IsUserStore s → IsUserStore (delete now id s).1
delete-IsUserStore now id s h = elim (Option-cases (live (Dict.get s.users id))) [
  | inl missing ↦ rw (delete_missing now id s missing) h
  | inr (old, alive) ↦
      let stored = stored_of_live s id old alive in
      let new : User = record old { status = user_status_deleted; updated_at = now } in
      rw (delete-live now id s old alive) (record {
        keyed = put-keyed s id new h.keyed (h.keyed id old stored);
        usernames =
            put_same-IsIndex username_of s.users s.by_username h.usernames id new old stored refl;
        emails = put_same-IsIndex email_of s.users s.by_email h.emails id new old stored refl;
      })
]

-- One call of the store that may change it, at any time and with any argument.
pub data Step : MemoryStore → MemoryStore → Type 0 where
  create_step :
      (now : Time) (user : User) (s : MemoryStore)
      → Dict.get s.users user.id ≡ none
      → Step s (create now user s).1
  update_step : (now : Time) (user : User) (s : MemoryStore) → Step s (update now user s).1
  delete_step : (now : Time) (id : String) (s : MemoryStore) → Step s (delete now id s).1

pub data Reach : MemoryStore → Type 0 where
  start : Reach new
  next : {s t : MemoryStore} → Reach s → Step s t → Reach t

Step-IsUserStore : {s t : MemoryStore} → Step s t → IsUserStore s → IsUserStore t
Step-IsUserStore (create_step now user s fresh) h = create-IsUserStore now user s h fresh
Step-IsUserStore (update_step now user s) h = update-IsUserStore now user s h
Step-IsUserStore (delete_step now id s) h = delete-IsUserStore now id s h

-- In every store that the operations reach from the empty one, each creation being given an id
-- under which nothing is stored, a user is stored under its own id, and each of the two indexes
-- takes the username, or the email, of every stored user to its id and holds nothing else.
pub Reach-IsUserStore : {s : MemoryStore} → Reach s → IsUserStore s
Reach-IsUserStore start = new-IsUserStore
Reach-IsUserStore (next r step) = Step-IsUserStore step (Reach-IsUserStore r)
