-- ===== src/Udp/Logins.antt =====
-- What the UDP server answers, and what it leaves.
use auth_imp.Base.{
  String, ◌≡◌, ◌⊎◌, inl, inr, refl, List, some, true, arith, Option-cases, if◌then◌else◌, ◌==◌,
}
use auth_imp.Errors.{Error, ok, err, Result-cases}
use auth_imp.Dict
use auth_imp.Model.{Time, User}
use auth_imp.UserStore.{MemoryStore}
use auth_imp.UserStore.Invariant.{IsUserStore}
use auth_imp.UserStore.Reads.{IsLive, get_by_username_cases}
use auth_imp.UserService.{verify_credentials}
use auth_imp.UserService.Credentials.{IsActive, verify_credentials_iff}
use auth_imp.UserService.Sessions.{marked, set_online_effect}
use auth_imp.Uds.Codec.{Byte}
use auth_imp.Udp.{parse_auth_request, process_packet}

-- Credentials give a user or an error.
verify_credentials_cases :
    (username password : String) (s : MemoryStore)
    → ((u : User) × (verify_credentials username password s ≡ ok u))
      ⊎ ((e : Error) × (verify_credentials username password s ≡ err e))
unfolding verify_credentials
verify_credentials_cases username password s =
    elim (Result-cases (verify_credentials username password s)) [
      | inl h ↦ inl h
      | inr (inl h) ↦ inr h
      | inr (inr h) ↦ elim (get_by_username_cases username s) [
        | inl (v, at) ↦ absurd (ground (arith, h, at))
        | inr missing ↦ absurd (ground (arith, h, missing))
      ]
    ]

module _ (text : List Byte → String) (now : Time) (received : List Byte) (s : MemoryStore) where
  -- The packet names a live and active user and gives its password.
  abbrev pub Names : User → Type 0
  Names u =
      (name : List Byte) × (password : List Byte) × (parse_auth_request received
        ≡ some (name, password))
      × IsLive s u
      × (u.username ≡ text name)
      × IsActive u
      × (u.password_hash ≡ text password)

  -- In a store with the user store's invariant, every packet is answered. Where it names a live and
  -- active user with its password, the answer is `OK` and that user, and no other, is stored with
  -- the online mark and the time; otherwise the answer is `FAIL` and the store is as it was.
  pub process_packet-answers :
      IsUserStore s
      → ((u : User) × Names u
          × ((process_packet text now received s).0 ≡ ok "OK")
          × ((j : String)
              → Dict.get (process_packet text now received s).1.users j
                ≡ (if u.id == j then some (marked now true u) else Dict.get s.users j)))
        ⊎ (((u : User) → ¬ Names u) × (process_packet text now received s ≡ (ok "FAIL", s)))
  unfolding process_packet
  process_packet-answers h = elim (Option-cases (parse_auth_request received)) [
    | inl unreadable ↦ inr (
      (λ u (name, password, e, _, _, _, _). ground (arith, unreadable, e)),
      rw (unreadable, process_packet) refl,
    )
    | inr ((name, password), e) ↦ elim (verify_credentials_cases (text name) (text password) s) [
      | inl (u, found) ↦
          let given = (verify_credentials_iff s h (text name) (text password) u).0 found in
          let marked_online = set_online_effect now u.id s true u (ground (arith, given)) in
          inl (
            u,
            (name, password, e, given.0, given.1, given.2, given.3),
            rw (e, process_packet, found) refl,
            λ j. rw (e, process_packet, found) (marked_online.1 j),
          )
      | inr (x, refused) ↦ inr (
        (λ u (n, p, same, alive, named, active, matching).
            let verified =
              (verify_credentials_iff s h (text n) (text p) u).1 (alive, named, active, matching) in
            ground (arith, e, same, verified, refused)),
        rw (e, process_packet, refused) refl,
      )
    ]
  ]
