-- ===== src/Tests/Connections.antt =====
-- The connections of the socket's server (internal/uds/server.go), one at a time.
use auth_imp.Base.Int.{pos, int64, leb_ℤ}
use auth_imp.Base.{true, arith, ◌↔◌, ◌+◌, ◌≤◌, ◌≡◌, refl, inl, [], length, In}
use auth_imp.Uds.Handshake.{Format, agreed, HandshakeResponse}
use auth_imp.Uds.Server.{Server, new_server, accept, establish}
use auth_imp.Uds.Server.Counting.{
  Move, accept_step, establish_step, move_step, Reach, start, next, begin, accept_alone, move,
  Reach-conn_count, Serial-bounded,
}
use auth_imp.Uds.Server.Limit.{any_conn_count}

abbrev welcome : HandshakeResponse
welcome = record { status = "ok"; version = "1.0"; format = "json"; error_message = "" }

abbrev accepted : Server
accepted = accept "s1" (new_server (pos 1))

abbrev established : Server
established = establish 5 "conn-5" "s1" (agreed Format.json welcome []) accepted

waits : In "s1" accepted.handshaking
unfolding accept new_server
waits = inl refl

none_waits : (new_server (pos 1)).handshaking ≡ []
unfolding new_server
none_waits = refl

handshake_done : Move accepted established
handshake_done = establish_step 5 "conn-5" "s1" (agreed Format.json welcome []) accepted waits

Reach-conn_count_example : established.conn_count ≡ int64 (length established.running)
Reach-conn_count_example =
    Reach-conn_count (pos 1) established
      (next (next start (accept_step "s1" (new_server (pos 1)))) (move_step handshake_done))

Serial-bounded_example :
    (established.conn_count ≡ pos (length established.running))
    × (length established.running + length established.handshaking ≤ 1)
Serial-bounded_example =
    Serial-bounded (pos 1) established (omega arith)
      (move (accept_alone "s1" begin none_waits) handshake_done)

any_conn_count_example :
    (leb_ℤ (pos 0) (pos 1) ≡ true)
    ↔ ((s : Server) × Reach (pos 1) s × (length s.running ≡ 3) × (s.conn_count ≡ int64 3))
any_conn_count_example = any_conn_count (pos 1) 2
