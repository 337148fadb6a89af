-- ===== src/UserStore/Outcomes.antt =====
-- The branches of each operation of the user store, each as one equation under its guards.
use auth_imp.Base.{String, ◌≡◌, true, false, none, some, arith}
use auth_imp.Errors.{Error, ok, err}
use auth_imp.Dict
use auth_imp.Dict.{Dict}
use auth_imp.Model.{Time, User, user_status_deleted}
use auth_imp.UserStore.{MemoryStore, create, update, delete, stamp_new, overlay, live, moves_email}

module _ (now : Time) (user : User) (s : MemoryStore) where
  pub create_taken :
      {owner : String}
      → Dict.get s.by_username user.username ≡ some owner
      → create now user s ≡ (err Error.user_already_exists, s)
  unfolding create
  create_taken e = ground arith

  pub create_email_taken :
      {owner : String}
      → Dict.get s.by_username user.username ≡ none
      → Dict.get s.by_email user.email ≡ some owner
      → create now user s ≡ (
        err Error.user_already_exists,
        record s {
          by_username = Dict.remove (Dict.put s.by_username user.username user.id) user.username;
        },
      )
  unfolding create
  create_email_taken e f = ground arith

  pub create_free :
      Dict.get s.by_username user.username ≡ none
      → Dict.get s.by_email user.email ≡ none
      → create now user s ≡ (
        ok (stamp_new now user),
        record {
          users = Dict.put s.users user.id (stamp_new now user);
          by_username = Dict.put s.by_username user.username user.id;
          by_email = Dict.put s.by_email user.email user.id;
        },
      )
  unfolding create
  create_free e f = ground arith

  pub update_missing :
      live (Dict.get s.users user.id) ≡ none → update now user s ≡ (err Error.user_not_found, s)
  unfolding update
  update_missing e = ground arith

  module _ (old : User) (stored : live (Dict.get s.users user.id) ≡ some old) where
    pub update_kept_email :
        moves_email user old ≡ false
        → update now user s
          ≡ (ok tt, record s { users = Dict.put s.users user.id (overlay now user old) })
    unfolding update
    update_kept_email e = ground arith

    pub update_email_taken :
        {owner : String}
        → moves_email user old ≡ true
        → Dict.get s.by_email user.email ≡ some owner
        → update now user s ≡ (err Error.user_already_exists, s)
    unfolding update
    update_email_taken e f = ground arith

    pub update_email_free :
        moves_email user old ≡ true
        → Dict.get s.by_email user.email ≡ none
        → update now user s ≡ (
          ok tt,
          record s {
            users = Dict.put s.users user.id (record (overlay now user old) { email = user.email });
            by_email = Dict.remove (Dict.put s.by_email user.email user.id) old.email;
          },
        )
    unfolding update
    update_email_free e f = ground arith

module _ (now : Time) (id : String) (s : MemoryStore) where
  pub delete_missing :
      live (Dict.get s.users id) ≡ none → delete now id s ≡ (err Error.user_not_found, s)
  unfolding delete
  delete_missing e = ground arith

  pub delete-live :
      (old : User)
      → live (Dict.get s.users id) ≡ some old
      → delete now id s ≡ (
        ok tt,
        record s {
          users =
              Dict.put s.users id (record old { status = user_status_deleted; updated_at = now });
        },
      )
  unfolding delete
  delete-live old e = ground arith
