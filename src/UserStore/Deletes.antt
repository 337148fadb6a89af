-- ===== src/UserStore/Deletes.antt =====
-- `MemoryStore.Delete` marks the user, and leaves its username and its email in the indexes.
use auth_imp.Base.{String, ◌≡◌, sym, ◌⊎◌, some, arith, inl, inr, eq_refl}
use auth_imp.Errors.{Error, ok, err}
use auth_imp.Dict
use auth_imp.Dict.{get-put}
use auth_imp.Model.{Time, User, user_status_deleted}
use auth_imp.UserStore.{MemoryStore, create, delete, get_by_id, get_by_username, get_by_email, live}
use auth_imp.UserStore.Outcomes.{delete-live}
use auth_imp.UserStore.Invariant.{IsUserStore, stored_of_live, delete-IsUserStore}
use auth_imp.UserStore.Creates.{IsTaken, create_refused_iff}

module _ (now : Time) (id : String) (s : MemoryStore) (h : IsUserStore s) where
  abbrev marked : User → User
  marked old = record old { status = user_status_deleted; updated_at = now }

  module _ (old : User) (alive : live (Dict.get s.users id) ≡ some old) where
    deleted_stored : Dict.get (delete now id s).1.users id ≡ some (marked old)
    deleted_stored =
        rw (delete-live now id s old alive)
          (ground (arith, get-put s.users id (marked old) id, eq_refl id))

    deleted-IsTaken :
        (user : User)
        → (user.username ≡ old.username) ⊎ (user.email ≡ old.email)
        → IsTaken (delete now id s).1 user
    deleted-IsTaken user (inl same) = (id, marked old, deleted_stored, inl (sym same))
    deleted-IsTaken user (inr same) = (id, marked old, deleted_stored, inr (sym same))

    deleted_unread :
        let t = (delete now id s).1 in
        ((delete now id s).0 ≡ ok tt)
        × (get_by_id id t ≡ err Error.user_not_found)
        × (get_by_username old.username t ≡ err Error.user_not_found)
        × (get_by_email old.email t ≡ err Error.user_not_found)
    unfolding get_by_id get_by_username get_by_email
    deleted_unread =
        let stored = stored_of_live s id old alive in
        rw (delete-live now id s old alive) (
          ground (
            arith,
            get-put s.users id (marked old) id,
            eq_refl id,
            h.usernames.complete id old stored,
            h.emails.complete id old stored,
          ))

    -- In a store with the user store's invariant, the deletion of a live user succeeds, and after
    -- it the three lookups find nobody by its id, its username and its email, and yet the creation
    -- of a user with its username or its email is refused.
    pub soft_delete_effect :
        (user : User)
        → (user.username ≡ old.username) ⊎ (user.email ≡ old.email)
        → let t = (delete now id s).1 in
          ((delete now id s).0 ≡ ok tt)
          × (get_by_id id t ≡ err Error.user_not_found)
          × (get_by_username old.username t ≡ err Error.user_not_found)
          × (get_by_email old.email t ≡ err Error.user_not_found)
          × ((create now user t).0 ≡ err Error.user_already_exists)
    soft_delete_effect user same =
        let (done, by_id, by_name, by_mail) = deleted_unread in
        (
          done,
          by_id,
          by_name,
          by_mail,
          (create_refused_iff now user (delete now id s).1 (delete-IsUserStore now id s h)).1
              (deleted-IsTaken user same),
        )
