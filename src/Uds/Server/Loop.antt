-- ===== src/Uds/Server/Loop.antt =====
-- The loop of `handleConn` in internal/uds/server.go, on what one connection meets, and the loop of
-- the accepted sockets.
use auth_imp.Base.{
  String, ◌≡◌, refl, Bool, true, false, List, [], ◌∷◌, map, length, take, if◌then◌else◌,
}
use auth_imp.Uds.Codec.{ReadResult, ReadError, got, failed}
use auth_imp.Uds.Payloads.{Decoder, JsonRequest, JsonResponse}
use auth_imp.Uds.Handlers.{Services, Call, Reply, reply, crash}
use auth_imp.Uds.Registry.{handle}
use auth_imp.Uds.Registry.Answers.{IsAnswer}
use auth_imp.Uds.Registry.Replies.{handle-IsAnswer}

-- A turn of the loop: it finds the server or the connection closed, or reads a request, and then
-- writes its response, with or without success.
pub data Turn (Raw : Type 0) : Type 0 where
  done : Turn Raw
  received : Call → ReadResult (JsonRequest Raw) → Bool → Turn Raw

-- Why the loop has ended, if it has. A handler that panics ends the process.
pub data Ended : Type 0 where
  still_open closed write_failed process_crashed : Ended
  read_failed : ReadError → Ended

-- The responses that were written, the services, and the end.
abbrev pub Served : Type 0
Served = List JsonResponse × (Services × Ended)

-- What the turns behind a request add to its own response.
abbrev pub with_reply : Reply → Bool → Services → Served → Served
with_reply crash written t rest = ([], (t, process_crashed))
with_reply (reply resp) written t (resps, end) =
    if written then (resp ∷ resps, end) else ([], (t, write_failed))

module _ {Raw : Type 0} (decoder : Decoder Raw) where
  unfoldable pub serve_conn : List (Turn Raw) → Services → Served
  serve_conn [] s = ([], (s, still_open))
  serve_conn (done ∷ turns) s = ([], (s, closed))
  serve_conn (received call (failed e) written ∷ turns) s = ([], (s, read_failed e))
  serve_conn (received call (got req) written ∷ turns) s =
      let (r, t) = handle decoder call req s in
      let rest = serve_conn turns t in with_reply r written t rest

  -- The ids of the requests that are read, in their order.
  unfoldable pub ids_read : List (Turn Raw) → List String
  ids_read [] = []
  ids_read (done ∷ turns) = []
  ids_read (received call (failed e) written ∷ turns) = []
  ids_read (received call (got req) written ∷ turns) = req.request_id ∷ ids_read turns

  abbrev ids_sent : Served → List String
  ids_sent (resps, _) = map (λ (r : JsonResponse). r.request_id) resps

  abbrev IsInOrder : List String → Served → Type 0
  IsInOrder ids served = ids_sent served ≡ take (length served.0) ids

  with_reply-IsInOrder :
      (id : String) (ids : List String) (s : Services) (p : Reply × Services) (written : Bool)
      (rest : Served)
      → IsAnswer id s p
      → IsInOrder ids rest
      → IsInOrder (id ∷ ids) (with_reply p.0 written p.1 rest)
  unfolding IsAnswer
  with_reply-IsInOrder id ids s (crash, t) written rest answer h = refl
  with_reply-IsInOrder id ids s (reply r, t) false (resps, _) answer h = refl
  with_reply-IsInOrder id ids s (reply r, t) true (resps, _) answer h = rw (answer.0, h) refl

  -- Whatever a connection meets, the ids of the responses that are written are those of the requests
  -- that are read, in their order, up to the last response.
  pub serve_conn-ids :
      (turns : List (Turn Raw)) (s : Services)
      → map (λ (r : JsonResponse). r.request_id) (serve_conn turns s).0
        ≡ take (length (serve_conn turns s).0) (ids_read turns)
  unfolding serve_conn ids_read
  serve_conn-ids [] s = refl
  serve_conn-ids (done ∷ turns) s = refl
  serve_conn-ids (received call (failed e) written ∷ turns) s = refl
  serve_conn-ids (received call (got req) written ∷ turns) s =
      let p = handle decoder call req s in
      with_reply-IsInOrder req.request_id (ids_read turns) s p written (serve_conn turns p.1)
        (handle-IsAnswer decoder call req s) (serve_conn-ids turns p.1)
