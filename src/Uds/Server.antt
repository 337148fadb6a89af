-- ===== src/Uds/Server.antt =====
-- The connections of `Server` in internal/uds/server.go: the accept loop, the life of a handler and
-- the idle checker. Each operation is what one goroutine does between two waits.
pub mod Counts
pub mod Counting
pub mod Limit
pub mod Loop
use Prim.Native.String.{◌++◌}
use auth_imp.Base.{
  ℕ, ◌+◌, ◌-◌, String, Bool, true, false, Option, none, some, List, [], ◌∷◌, ◌==◌, leb, ltb, eqb,
  if◌then◌else◌,
}
use auth_imp.Base.Int.{ℤ, pos, negsuc, is_zero, leb_ℤ, add_int}
use auth_imp.Dict
use auth_imp.Dict.{Dict}
use auth_imp.Model.{Time}
use auth_imp.Uds.Handshake.{Format, Handshake, closed, refused, agreed}

-- `IdleTimeout`, in nanoseconds.
abbrev pub idle_timeout : ℕ
idle_timeout = 60_000_000_000

pub record Connection : Type 0 where
  pub format : Format
  pub last_active : Time
  -- whether `closeCh` is closed
  pub is_closed : Bool

-- The goroutines that wait for a handshake are named by their sockets, and those behind it by the
-- ids of their connections.
pub record Server : Type 0 where
  pub max_conns : ℤ
  pub handshaking : List String
  pub running : List String
  pub connections : Dict Connection
  pub conn_count : ℤ

-- `NewServer`. Only a limit of zero is replaced.
unfoldable pub new_server : ℤ → Server
new_server max_conns = record {
  max_conns = if is_zero max_conns then pos 100 else max_conns;
  handshaking = [];
  running = [];
  connections = Dict.empty;
  conn_count = pos 0;
}

-- `acceptLoop`, for one socket.
unfoldable pub accept : String → Server → Server
accept socket s =
    if leb_ℤ s.max_conns s.conn_count then s else record s { handshaking = socket ∷ s.handshaking }

-- The goroutines without the first one of the name.
unfoldable pub leave : String → List String → List String
leave name [] = []
leave name (other ∷ names) =
    let later = leave name names in if other == name then names else other ∷ later

-- `handleConn`, from the end of the handshake up to its loop. The id is made from the clock.
unfoldable pub establish : Time → String → String → Handshake → Server → Server
unfolding leave
establish now id socket closed s = record s { handshaking = leave socket s.handshaking }
establish now id socket (refused _ _) s = record s { handshaking = leave socket s.handshaking }
establish now id socket (agreed format _ _) s = record s {
  handshaking = leave socket s.handshaking;
  running = id ∷ s.running;
  connections =
      Dict.put s.connections id (record { format = format; last_active = now; is_closed = false });
  conn_count = add_int s.conn_count (pos 1);
}

-- `conn.touch()`, where the connection is still registered.
unfoldable pub touch : Time → String → Server → Server
touch now id s = elim (Dict.get s.connections id) [
  | none ↦ s
  | some c ↦ record s { connections = Dict.put s.connections id (record c { last_active = now }) }
]

-- The deferred function of `handleConn`.
unfoldable pub finish : String → Server → Server
unfolding leave
finish id s = record s {
  running = leave id s.running;
  connections = Dict.remove s.connections id;
  conn_count = add_int s.conn_count (negsuc 0);
}

-- What the idle checker does for one registered connection.
unfoldable pub check_idle : Time → String → Server → Server
check_idle now id s = elim (Dict.get s.connections id) [
  | none ↦ s
  | some c ↦
      if ltb (c.last_active + idle_timeout) now
      then record s { connections = Dict.put s.connections id (record c { is_closed = true }) }
      else s
]
