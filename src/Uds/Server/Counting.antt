-- ===== src/Uds/Server/Counting.antt =====
-- The count of connections, and the limit on it.
use auth_imp.Base.Int.{ℤ, pos, negsuc, pos_part, is_zero, leb_ℤ, add_int, int64, IsInt}
use auth_imp.Uds.Server.Counts.{int64_up, int64_down, int64_small}
use auth_imp.Base.{
  ◌<◌, ◌^◌, ◌∙◌, ap, false, subst, if◌then◌else◌, ℕ, suc, ◌+◌, ◌≤◌, String, ◌≡◌, refl, sym, inl,
  inr, List, [], ◌∷◌, ltb, length, In, arith, text_cases, Option-cases, Bool-cases,
}
use auth_imp.Dict
use auth_imp.Dict.{Dict, dict_laws, get-put, get-remove, get-empty}
use auth_imp.Model.{Time}
use auth_imp.Uds.Handshake.{Handshake, closed, refused, agreed}
use auth_imp.Uds.Server.{
  Server, new_server, accept, leave, establish, touch, finish, check_idle, idle_timeout,
}

length-leave :
    (name : String) (names : List String)
    → In name names
    → length names ≡ suc (length (leave name names))
unfolding leave
length-leave name [] m = elim m [ ]
length-leave name (other ∷ names) m = elim (text_cases other name) [
  | inl e ↦ ground (arith, e.0)
  | inr e ↦ elim m [
    | inl same ↦ absurd (e.1 (sym same))
    | inr later ↦ ground (arith, e.0, length-leave name names later)
  ]
]

-- One step of a handler or of the idle checker. A handshake ends for a socket that waits for it,
-- and a handler for a connection that runs.
pub data Move : Server → Server → Type 0 where
  establish_step :
      (now : Time) (id socket : String) (h : Handshake) (s : Server)
      → In socket s.handshaking
      → Move s (establish now id socket h s)
  touch_step : (now : Time) (id : String) (s : Server) → Move s (touch now id s)
  idle_step : (now : Time) (id : String) (s : Server) → Move s (check_idle now id s)
  finish_step : (id : String) (s : Server) → In id s.running → Move s (finish id s)

-- One step of the server.
pub data Step : Server → Server → Type 0 where
  accept_step : (socket : String) (s : Server) → Step s (accept socket s)
  move_step : {s t : Server} → Move s t → Step s t

pub data Reach (max_conns : ℤ) : Server → Type 0 where
  start : Reach max_conns (new_server max_conns)
  next : {s t : Server} → Reach max_conns s → Step s t → Reach max_conns t

-- The steps that leave the goroutines alone.
pub touch-count :
    (now : Time) (id : String) (s : Server)
    → ((touch now id s).conn_count ≡ s.conn_count)
      × ((touch now id s).running ≡ s.running)
      × ((touch now id s).handshaking ≡ s.handshaking)
      × ((touch now id s).max_conns ≡ s.max_conns)
unfolding touch
touch-count now id s = elim (Option-cases (Dict.get s.connections id)) [
  | inl e ↦ rw (e, touch) (refl, refl, refl, refl)
  | inr (c, e) ↦ rw (e, touch) (refl, refl, refl, refl)
]

pub check_idle-count :
    (now : Time) (id : String) (s : Server)
    → ((check_idle now id s).conn_count ≡ s.conn_count)
      × ((check_idle now id s).running ≡ s.running)
      × ((check_idle now id s).handshaking ≡ s.handshaking)
      × ((check_idle now id s).max_conns ≡ s.max_conns)
unfolding check_idle
check_idle-count now id s = elim (Option-cases (Dict.get s.connections id)) [
  | inl e ↦ rw (e, check_idle) (refl, refl, refl, refl)
  | inr (c, e) ↦ elim (Bool-cases (ltb (c.last_active + idle_timeout) now)) [
    | inl b ↦ rw (e, check_idle, b) (refl, refl, refl, refl)
    | inr b ↦ rw (e, check_idle, b) (refl, refl, refl, refl)
  ]
]

Move-counted :
    {s t : Server}
    → Move s t
    → s.conn_count ≡ int64 (length s.running)
    → t.conn_count ≡ int64 (length t.running)
unfolding establish finish
Move-counted (establish_step now id socket closed s m) h = h
Move-counted (establish_step now id socket (refused _ _) s m) h = h
Move-counted (establish_step now id socket (agreed _ _ _) s m) h =
    ap (λ c. add_int c (pos 1)) h ∙ int64_up (length s.running)
Move-counted (touch_step now id s) h = ground (arith, touch-count now id s, h)
Move-counted (idle_step now id s) h = ground (arith, check_idle-count now id s, h)
Move-counted (finish_step id s m) h =
    ap (λ c. add_int c (negsuc 0)) (h ∙ ap int64 (length-leave id s.running m))
    ∙ int64_down (length (leave id s.running))

Step-counted :
    {s t : Server}
    → Step s t
    → s.conn_count ≡ int64 (length s.running)
    → t.conn_count ≡ int64 (length t.running)
unfolding accept
Step-counted (accept_step socket s) h = ground (arith, h)
Step-counted (move_step m) h = Move-counted m h

-- In every state that the server reaches, whatever the limit, the count of connections is the
-- number of handlers that are behind their handshake and have not finished, as an `int64`.
pub Reach-conn_count :
    (max_conns : ℤ) (s : Server) → Reach max_conns s → s.conn_count ≡ int64 (length s.running)
unfolding new_server
Reach-conn_count max_conns s start = refl
Reach-conn_count max_conns s (next r step) = Step-counted step (Reach-conn_count max_conns _ r)

-- Runs in which no socket is accepted while another one waits for its handshake.
pub data Serial (max_conns : ℤ) : Server → Type 0 where
  begin : Serial max_conns (new_server max_conns)
  accept_alone :
      {s : Server} (socket : String)
      → Serial max_conns s
      → s.handshaking ≡ []
      → Serial max_conns (accept socket s)
  move : {s t : Server} → Serial max_conns s → Move s t → Serial max_conns t

-- The goroutines for sockets, before and behind the handshake, stay within a limit.
abbrev IsBounded : ℕ → Server → Type 0
IsBounded limit s = length s.running + length s.handshaking ≤ limit

Move-IsBounded : {s t : Server} (limit : ℕ) → Move s t → IsBounded limit s → IsBounded limit t
unfolding establish finish
Move-IsBounded limit (establish_step now id socket closed s m) h =
    omega (arith, h, length-leave socket s.handshaking m)
Move-IsBounded limit (establish_step now id socket (refused _ _) s m) h =
    omega (arith, h, length-leave socket s.handshaking m)
Move-IsBounded limit (establish_step now id socket (agreed _ _ _) s m) h =
    omega (arith, h, length-leave socket s.handshaking m)
Move-IsBounded limit (touch_step now id s) h = ground (arith, touch-count now id s, h)
Move-IsBounded limit (idle_step now id s) h = ground (arith, check_idle-count now id s, h)
Move-IsBounded limit (finish_step id s m) h = omega (arith, h, length-leave id s.running m)

Move-max_conns : {s t : Server} → Move s t → t.max_conns ≡ s.max_conns
unfolding establish finish
Move-max_conns (establish_step now id socket closed s m) = refl
Move-max_conns (establish_step now id socket (refused _ _) s m) = refl
Move-max_conns (establish_step now id socket (agreed _ _ _) s m) = refl
Move-max_conns (touch_step now id s) = ground (arith, touch-count now id s)
Move-max_conns (idle_step now id s) = ground (arith, check_idle-count now id s)
Move-max_conns (finish_step id s m) = refl

-- The limit that is in force, as a number of connections.
abbrev room : ℤ → ℕ
room max_conns = pos_part (new_server max_conns).max_conns

accept-max_conns : (socket : String) (s : Server) → (accept socket s).max_conns ≡ s.max_conns
unfolding accept
accept-max_conns socket s = ground arith

module _ (max_conns : ℤ) where
  Serial-max_conns :
      {s : Server} → Serial max_conns s → s.max_conns ≡ (new_server max_conns).max_conns
  Serial-max_conns begin = refl
  Serial-max_conns (accept_alone socket r alone) = accept-max_conns socket _ ∙ Serial-max_conns r
  Serial-max_conns (move r m) = Move-max_conns m ∙ Serial-max_conns r

  Serial-counted : {s : Server} → Serial max_conns s → s.conn_count ≡ int64 (length s.running)
  unfolding new_server
  Serial-counted begin = refl
  Serial-counted (accept_alone socket r alone) =
      Step-counted (accept_step socket _) (Serial-counted r)
  Serial-counted (move r m) = Move-counted m (Serial-counted r)

-- A number within a limit is an `int64`.
below : {n : ℕ} (limit : ℤ) → IsInt limit → n ≤ pos_part limit → n < 2 ^ 63
below (pos k) small h = omega (arith, small, h)
below (negsuc k) small h = omega (arith, h)

below_limit : (limit : ℤ) (n : ℕ) → leb_ℤ limit (pos n) ≡ false → n + 1 ≤ pos_part limit
below_limit (pos k) n h = ground (arith, h)
below_limit (negsuc k) n h = ground (arith, h)

accept-IsBounded :
    (limit : ℤ) (socket : String) (s : Server)
    → IsInt limit
    → s.max_conns ≡ limit
    → s.conn_count ≡ int64 (length s.running)
    → s.handshaking ≡ []
    → IsBounded (pos_part limit) s
    → IsBounded (pos_part limit) (accept socket s)
unfolding accept
accept-IsBounded limit socket s small same counted alone h =
    let few : s.conn_count ≡ pos (length s.running) =
      counted ∙ int64_small (length s.running) (below limit small (omega (arith, h))) in
    elim (Bool-cases (leb_ℤ s.max_conns s.conn_count)) [
      | inl full ↦ rw (full, accept) h
      | inr free ↦
          let open_yet : leb_ℤ limit (pos (length s.running)) ≡ false =
            subst (λ m. leb_ℤ m (pos (length s.running)) ≡ false) same
              (subst (λ c. leb_ℤ s.max_conns c ≡ false) few free) in
          rw (free, accept, alone) (below_limit limit (length s.running) open_yet)
    ]

limit-IsInt : (max_conns : ℤ) → IsInt max_conns → IsInt (new_server max_conns).max_conns
unfolding new_server
limit-IsInt (pos n) small = ground (arith, small)
limit-IsInt (negsuc n) small = small

Serial-IsBounded :
    (max_conns : ℤ) {s : Server}
    → IsInt max_conns
    → Serial max_conns s
    → IsBounded (room max_conns) s
unfolding new_server
Serial-IsBounded max_conns small begin = omega arith
Serial-IsBounded max_conns small (accept_alone socket r alone) =
    accept-IsBounded (new_server max_conns).max_conns socket _ (limit-IsInt max_conns small)
      (Serial-max_conns max_conns r) (Serial-counted max_conns r) alone
      (Serial-IsBounded max_conns small r)
Serial-IsBounded max_conns small (move r m) =
    Move-IsBounded (room max_conns) m (Serial-IsBounded max_conns small r)

-- For every limit, in every run in which no socket is accepted while another one waits for its
-- handshake: the count of connections is the number of handlers behind their handshake, and with the
-- waiting sockets these are at most the limit, 100 for a limit of zero and none for a negative one.
pub Serial-bounded :
    (max_conns : ℤ) (s : Server)
    → IsInt max_conns
    → Serial max_conns s
    → (s.conn_count ≡ pos (length s.running))
      × (length s.running + length s.handshaking
          ≤ pos_part (if is_zero max_conns then pos 100 else max_conns))
unfolding new_server
Serial-bounded max_conns s small r =
    let bound = Serial-IsBounded max_conns small r in
    (
      Serial-counted max_conns r
          ∙ int64_small (length s.running) (
              below (new_server max_conns).max_conns (limit-IsInt max_conns small)
                (omega (arith, bound))),
      bound,
    )
