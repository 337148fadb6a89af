-- ===== src/Tests/Streams.antt =====
-- Connections of the socket (internal/uds) with a few bytes and requests.
use auth_imp.Base.{
  ℕ, String, ◌≡◌, ◌≤◌, ◌<◌, refl, some, none, true, List, [], ◌∷◌, ◌++◌, map, length, take, arith,
}
use auth_imp.Uds.Codec.{
  Byte, ReadError, got, failed, joined, max_message_size, write_length_prefixed, put_uint32,
}
use auth_imp.Uds.Reader.{LengthPrefixedReader, reader, drained, drained-remaining}
use auth_imp.Uds.Handshake.{Format}
use auth_imp.Uds.Payloads.{JsonResponse}
use auth_imp.Uds.Codecs.{Json, read_requests}
use auth_imp.Uds.Codecs.Streams.{Sent, none_sent, one_sent, read_requests-Sent}
use auth_imp.Uds.Server.Loop.{Turn, received, serve_conn, ids_read, serve_conn-ids}
use auth_imp.Tests.Sockets.{decoder, call, request, services}

-- Five bytes in buffers of two.
abbrev five : LengthPrefixedReader
five = reader (2 ∷ 0 ∷ 0 ∷ []) (7 ∷ 8 ∷ [])

room : 1 ≤ 2
room = omega arith

enough : 5 < 6
enough = omega arith

drained-remaining_example : drained 6 2 five ≡ some (2 ∷ 0 ∷ 0 ∷ 7 ∷ 8 ∷ [])
drained-remaining_example = drained-remaining 2 room 6 five enough

abbrev turns : List (Turn String)
turns =
    received call (got request) true
    ∷ received call (got (record request { action = "ping"; request_id = "r2" })) true
    ∷ received call (failed ReadError.eof) true
    ∷ []

serve_conn-ids_example :
    map (λ (r : JsonResponse). r.request_id) (serve_conn decoder turns services).0
    ≡ take (length (serve_conn decoder turns services).0) (ids_read decoder turns)
serve_conn-ids_example = serve_conn-ids decoder turns services

-- Every text is the same request.
abbrev json : Json String
json = record {
  unmarshal_handshake = λ _. none;
  marshal_handshake = λ _. none;
  unmarshal_request = λ _. some request;
  marshal_response = λ _. none;
}

abbrev two_frames : List Byte
two_frames = write_length_prefixed (1 ∷ []) ++ (write_length_prefixed (2 ∷ 3 ∷ []) ++ [])

short : (n : ℕ) → n ≤ 2 → n ≤ max_message_size
short n h = omega (arith, h)

two-Sent : Sent json (request ∷ request ∷ []) two_frames
two-Sent =
    one_sent request (1 ∷ []) (short 1 (omega arith)) refl
      (one_sent request (2 ∷ 3 ∷ []) (short 2 (omega arith)) refl none_sent)

-- The reads cut the first frame, and the second one in its length.
abbrev reads : List (List Byte)
reads = (1 ∷ 0 ∷ []) ∷ (0 ∷ 0 ∷ 1 ∷ 2 ∷ 0 ∷ []) ∷ (0 ∷ 0 ∷ 2 ∷ 3 ∷ []) ∷ []

all_read : joined reads ≡ two_frames
unfolding joined write_length_prefixed put_uint32
all_read = refl

read_requests-Sent_example : read_requests json 2 Format.protobuf reads ≡ request ∷ request ∷ []
read_requests-Sent_example = read_requests-Sent json reads two-Sent all_read
