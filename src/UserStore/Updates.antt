-- ===== src/UserStore/Updates.antt =====
-- `MemoryStore.Update`: what it changes, when it is refused, and how it moves an email.
use auth_imp.Base.{
  String, ◌≡◌, ◌↔◌, some, true, false, arith, inl, inr, eq_iff, eq_refl, Bool-cases, Option-cases,
  if◌then◌else◌, ◌==◌,
}
use auth_imp.Errors.{Error, ok, err}
use auth_imp.Dict
use auth_imp.Dict.{get-put, get-remove}
use auth_imp.Model.{Time, User}
use auth_imp.UserStore.{MemoryStore, update, get_by_id, get_by_email, overlay, live, moves_email}
use auth_imp.UserStore.Outcomes.{update_kept_email, update_email_taken, update_email_free}
use auth_imp.UserStore.Invariant.{IsUserStore}

module _ (now : Time) (user : User) (s : MemoryStore) where
  -- What an update makes of the stored user: a field that is not empty replaces the stored one,
  -- and the online mark is always replaced.
  abbrev pub updated : User → User
  updated old = record old {
    email = if user.email == "" then old.email else user.email;
    display_name = if user.display_name == "" then old.display_name else user.display_name;
    status = if user.status == "" then old.status else user.status;
    is_online = user.is_online;
    updated_at = now;
  }

  updated_kept : (old : User) → moves_email user old ≡ false → overlay now user old ≡ updated old
  unfolding overlay
  updated_kept old e = ground (arith, e, eq_iff user.email old.email)

  updated_moved :
      (old : User)
      → moves_email user old ≡ true
      → record (overlay now user old) { email = user.email } ≡ updated old
  unfolding overlay
  updated_moved old e = ground (arith, e, eq_iff user.email old.email)

  module _ (old : User) (alive : live (Dict.get s.users user.id) ≡ some old) where
    -- An update of a live user that succeeds stores the user with the update's fields under its
    -- id, and changes what is stored under no other id.
    pub update_effect :
        (update now user s).0 ≡ ok tt
        → (j : String)
        → Dict.get (update now user s).1.users j
          ≡ (if user.id == j then some (updated old) else Dict.get s.users j)
    update_effect e j = elim (Bool-cases (moves_email user old)) [
      | inr kept ↦
          rw (update_kept_email now user s old alive kept, updated_kept old kept)
            (get-put s.users user.id (updated old) j)
      | inl moved ↦ elim (Option-cases (Dict.get s.by_email user.email)) [
        | inr (owner, taken) ↦
            absurd (ground (arith, e, update_email_taken now user s old alive moved taken))
        | inl free ↦
            rw (update_email_free now user s old alive moved free, updated_moved old moved)
              (get-put s.users user.id (updated old) j)
      ]
    ]

    -- In a store with the user store's invariant, an update of a live user is refused exactly when
    -- it asks for another email and some stored user has that email.
    pub update_refused_iff :
        IsUserStore s
        → ((update now user s).0 ≡ err Error.user_already_exists) ↔ (
            (moves_email user old ≡ true)
            × ((i : String) × (v : User) × (Dict.get s.users i ≡ some v) × (v.email ≡ user.email)))
    update_refused_iff h = (
      (λ e. elim (Bool-cases (moves_email user old)) [
        | inr kept ↦ absurd (ground (arith, e, update_kept_email now user s old alive kept))
        | inl moved ↦ elim (Option-cases (Dict.get s.by_email user.email)) [
          | inr (owner, taken) ↦
              let (v, stored, same) = h.emails.sound user.email owner taken in
              (moved, (owner, v, stored, same))
          | inl free ↦ absurd (ground (arith, e, update_email_free now user s old alive moved free))
        ]
      ]),
      λ p.
          let (i, v, stored, same) = p.1 in
          let taken : Dict.get s.by_email user.email ≡ some i =
            rw same at (h.emails.complete i v stored) in
          ground (arith, update_email_taken now user s old alive p.0 taken),
    )

    -- An update of a live user that moves the email and succeeds frees the old one: the lookup by
    -- the old email then finds nobody, and the lookup by the new email finds what the lookup by id
    -- finds.
    pub update-moves_email :
        moves_email user old ≡ true
        → (update now user s).0 ≡ ok tt
        → let t = (update now user s).1 in
          (get_by_email old.email t ≡ err Error.user_not_found)
          × (get_by_email user.email t ≡ get_by_id user.id t)
    unfolding get_by_email
    update-moves_email moved e = elim (Option-cases (Dict.get s.by_email user.email)) [
      | inr (owner, taken) ↦
          absurd (ground (arith, e, update_email_taken now user s old alive moved taken))
      | inl free ↦ rw (update_email_free now user s old alive moved free) (
          ground (
            arith,
            moved,
            eq_refl old.email,
            eq_refl user.email,
            eq_iff user.email old.email,
            eq_iff old.email user.email,
            get-remove (Dict.put s.by_email user.email user.id) old.email old.email,
            get-remove (Dict.put s.by_email user.email user.id) old.email user.email,
            get-put s.by_email user.email user.id user.email,
          ))
    ]
