-- ===== src/Uds/Codecs.antt =====
-- `Codec` of internal/uds/codec.go with its two implementations. What `encoding/json` makes of a
-- message and of a text is a parameter.
pub mod Streams
use auth_imp.Base.{ℕ, zero, suc, ◌+◌, Option, none, some, List, [], ◌∷◌, length, ltb, if◌then◌else◌}
use auth_imp.Uds.Codec.{
  Byte, ReadError, ReadResult, got, failed, too_large, joined, max_message_size,
  max_scan_token_size, scan, read_request_line, read_length_prefixed, write_line,
  write_length_prefixed,
}
use auth_imp.Uds.Handshake.{Format, HandshakeRequest, HandshakeResponse, skip}
use auth_imp.Uds.Payloads.{JsonRequest, JsonResponse}

-- `json.Marshal` and `json.Unmarshal` of the messages.
pub record Json (Raw : Type 0) : Type 0 where
  pub unmarshal_handshake : List Byte → Option HandshakeRequest
  pub marshal_handshake : HandshakeResponse → Option (List Byte)
  pub unmarshal_request : List Byte → Option (JsonRequest Raw)
  pub marshal_response : JsonResponse → Option (List Byte)

-- What a call reads, with the reads that are left: a message, or an error of the connection or of
-- the JSON decoder.
pub data Message (A : Type 0) : Type 0 where
  message : A → List (List Byte) → Message A
  unread : ReadError → Message A
  undecoded : Message A

-- `json.Unmarshal` of what was read.
unfoldable pub decoded :
    {A : Type 0} → (List Byte → Option A) → ReadResult (List Byte × List (List Byte)) → Message A
decoded unmarshal (failed e) = unread e
decoded unmarshal (got (text, rest)) = elim (unmarshal text) [
  | none ↦ undecoded
  | some a ↦ message a rest
]

-- A frame, and the reads behind it.
unfoldable pub frame :
    List (List Byte)
    → ReadResult (List Byte × List Byte)
    → ReadResult (List Byte × List (List Byte))
frame reads (failed e) = failed e
frame reads (got (body, _)) = got (body, skip (4 + length body) reads)

-- The test on the length that `ProtobufCodec.ReadRequest` makes again.
unfoldable pub bounded :
    ReadResult (List Byte × List (List Byte)) → ReadResult (List Byte × List (List Byte))
bounded (failed e) = failed e
bounded (got (body, rest)) =
    if ltb max_message_size (length body) then failed too_large else got (body, rest)

module _ {Raw : Type 0} (json : Json Raw) where
  -- `ReadHandshake` of the codec of a format (`NewCodec`).
  unfoldable pub read_handshake : Format → List (List Byte) → Message HandshakeRequest
  unfolding decoded frame
  read_handshake Format.json reads =
      decoded json.unmarshal_handshake (scan max_scan_token_size [] reads)
  read_handshake Format.protobuf reads =
      decoded json.unmarshal_handshake (frame reads (read_length_prefixed (joined reads)))

  -- `ReadRequest`
  unfoldable pub read_request : Format → List (List Byte) → Message (JsonRequest Raw)
  unfolding decoded frame bounded
  read_request Format.json reads = decoded json.unmarshal_request (read_request_line reads)
  read_request Format.protobuf reads =
      decoded json.unmarshal_request (bounded (frame reads (read_length_prefixed (joined reads))))

  -- The bytes of a message in a format.
  abbrev pub framed : Format → Option (List Byte) → Option (List Byte)
  framed format none = none
  framed Format.json (some text) = some (write_line text)
  framed Format.protobuf (some text) = some (write_length_prefixed text)

  -- `WriteHandshake`: what is sent, or nothing where the message has no JSON text.
  unfoldable pub write_handshake : Format → HandshakeResponse → Option (List Byte)
  write_handshake format resp = framed format (json.marshal_handshake resp)

  -- `WriteResponse`
  unfoldable pub write_response : Format → JsonResponse → Option (List Byte)
  write_response format resp = framed format (json.marshal_response resp)

  -- The requests that the loop of a connection reads one after another, `n` at most.
  unfoldable pub read_requests : ℕ → Format → List (List Byte) → List (JsonRequest Raw)
  unfolding read_request
  read_requests zero format reads = []
  read_requests (suc n) format reads = elim (read_request format reads) [
    | message req rest ↦ req ∷ read_requests n format rest
    | unread e ↦ []
    | undecoded ↦ []
  ]
