-- ===== src/Uds/Server/Limit.antt =====
-- The limit on connections is tested when a socket is accepted, and the count goes up only behind
-- its handshake.
use auth_imp.Base.{
  ℕ, zero, suc, ◌+◌, String, ◌≡◌, ◌↔◌, refl, ap, sym, subst, ◌∙◌, inl, false, true, List, [], ◌∷◌,
  length, In, arith,
}
use auth_imp.Base.Int.{ℤ, pos, negsuc, leb_ℤ, int64}
use auth_imp.Uds.Handshake.{Format, HandshakeResponse, agreed}
use auth_imp.Uds.Server.{Server, new_server, accept, leave, establish}
use auth_imp.Uds.Server.Counting.{
  Move, Step, accept_step, establish_step, touch_step, idle_step, finish_step, move_step,
  touch-count, check_idle-count, Reach, start, next, Reach-conn_count,
}

-- So many sockets of one name.
waiting : ℕ → List String
waiting zero = []
waiting (suc n) = "s" ∷ waiting n

module _ (limit : ℕ) where
  abbrev crowd : ℕ → Server
  crowd n = record (new_server (pos limit)) { handshaking = waiting n }

  open_limit : leb_ℤ (new_server (pos limit)).max_conns (pos 0) ≡ false
  unfolding new_server
  open_limit = ground arith

  accept-crowd : (n : ℕ) → accept "s" (crowd n) ≡ crowd (suc n)
  unfolding accept waiting new_server
  accept-crowd n = rw (open_limit, accept)

  crowd-Reach : (n : ℕ) → Reach (pos limit) (crowd n)
  unfolding waiting new_server
  crowd-Reach zero = start
  crowd-Reach (suc n) =
      subst (Reach (pos limit)) (accept-crowd n) (next (crowd-Reach n) (accept_step "s" (crowd n)))

  abbrev response : HandshakeResponse
  response = record { status = "ok"; version = "1.0"; format = "json"; error_message = "" }

  all_established :
      (n : ℕ) (s : Server)
      → Reach (pos limit) s
      → s.handshaking ≡ waiting n
      → (t : Server) × Reach (pos limit) t × (length t.running ≡ length s.running + n)
  unfolding waiting establish leave
  all_established zero s r e = (s, r, omega arith)
  all_established (suc n) s r e =
      let step =
        establish_step 0 "c" "s" (agreed Format.json response []) s
          (subst (In "s") (sym e) (inl refl)) in
      let (t, reached, count) = all_established n _ (next r (move_step step)) (ap (leave "s") e) in
      (t, reached, omega (arith, count))

  crowded : (n : ℕ) → (t : Server) × Reach (pos limit) t × (length t.running ≡ n)
  unfolding new_server
  crowded n =
      let (t, reached, count) = all_established n (crowd n) (crowd-Reach n) refl in
      (t, reached, omega (arith, count))

-- Nothing runs, and every socket is refused.
pub record IsShut (s : Server) : Type 0 where
  pub full : leb_ℤ s.max_conns s.conn_count ≡ true
  pub nobody_waits : s.handshaking ≡ []
  pub nobody_runs : s.running ≡ []

Move-IsShut : {s t : Server} → Move s t → IsShut s → IsShut t
Move-IsShut (establish_step now id socket h s m) shut =
    elim (subst (In socket) shut.nobody_waits m) [ ]
Move-IsShut (touch_step now id s) shut =
    let (count, running, handshaking, limit) = touch-count now id s in
    record {
      full = ground (arith, count, limit, shut.full);
      nobody_waits = handshaking ∙ shut.nobody_waits;
      nobody_runs = running ∙ shut.nobody_runs;
    }
Move-IsShut (idle_step now id s) shut =
    let (count, running, handshaking, limit) = check_idle-count now id s in
    record {
      full = ground (arith, count, limit, shut.full);
      nobody_waits = handshaking ∙ shut.nobody_waits;
      nobody_runs = running ∙ shut.nobody_runs;
    }
Move-IsShut (finish_step id s m) shut = elim (subst (In id) shut.nobody_runs m) [ ]

Step-IsShut : {s t : Server} → Step s t → IsShut s → IsShut t
unfolding accept
Step-IsShut (accept_step socket s) h = subst IsShut (rw (h.full, accept) refl) h
Step-IsShut (move_step m) h = Move-IsShut m h

Reach-IsShut : (below : ℕ) (s : Server) → Reach (negsuc below) s → IsShut s
unfolding new_server
Reach-IsShut below s start = record { full = ground arith; nobody_waits = refl; nobody_runs = refl }
Reach-IsShut below s (next r step) = Step-IsShut step (Reach-IsShut below _ r)

-- For any number of connections but zero, the server reaches a state with that many handlers behind
-- their handshake, and that count, exactly when the limit is not negative, however small it is:
-- sockets that are accepted before the first of them has finished its handshake are all let in. With
-- a negative limit no handler ever gets that far.
pub any_conn_count :
    (max_conns : ℤ) (n : ℕ)
    → (leb_ℤ (pos 0) max_conns ≡ true) ↔ (
        (s : Server) × Reach max_conns s
        × (length s.running ≡ suc n)
        × (s.conn_count ≡ int64 (suc n)))
any_conn_count (pos limit) n = (
  (λ _.
      let (t, reached, count) = crowded limit (suc n) in
      (t, reached, count, Reach-conn_count (pos limit) t reached ∙ ap int64 count)),
  λ _. ground arith,
)
any_conn_count (negsuc below) n = (
  (λ h. absurd (ground (arith, h))),
  λ (s, reached, count, _). absurd (
      omega (
        arith,
        count,
        ap (λ (l : List String). length l) (Reach-IsShut below s reached).nobody_runs,
      )),
)
