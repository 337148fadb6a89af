-- ===== src/Uds/Codecs/Streams.antt =====
-- Requests that follow one another in the frame format.
use auth_imp.Base.{
  ℕ, ◌+◌, ◌≤◌, ◌≡◌, refl, ap, ◌∙◌, some, List, [], ◌∷◌, ◌++◌, length, ltb, arith, false,
}
use auth_imp.Uds.Codec.{
  Byte, joined, got, max_message_size, put_uint32, read_length_prefixed, write_length_prefixed,
}
use auth_imp.Uds.Codec.Frames.{read-write_length_prefixed, drop-append}
use auth_imp.Uds.Handshake.{Format, skip}
use auth_imp.Uds.Handshake.Formats.{joined-skip}
use auth_imp.Uds.Payloads.{JsonRequest}
use auth_imp.Uds.Codecs.{Json, message, decoded, frame, bounded, read_request, read_requests}

module _ {Raw : Type 0} (json : Json Raw) where
  -- Bytes that hold the texts of requests, in their order, each of a megabyte at most behind its
  -- length.
  pub data Sent : List (JsonRequest Raw) → List Byte → Type 0 where
    none_sent : Sent [] []
    one_sent :
        {reqs : List (JsonRequest Raw)} {bytes : List Byte} (req : JsonRequest Raw)
        (text : List Byte)
        → length text ≤ max_message_size
        → json.unmarshal_request text ≡ some req
        → Sent reqs bytes
        → Sent (req ∷ reqs) (write_length_prefixed text ++ bytes)

  length-write : (text : List Byte) → length (write_length_prefixed text) ≡ 4 + length text
  unfolding write_length_prefixed put_uint32
  length-write text = omega arith

  small : (n : ℕ) → n ≤ max_message_size → ltb max_message_size n ≡ false
  small n h = ground arith

  read_request-first :
      (reads : List (List Byte)) (req : JsonRequest Raw) (text rest : List Byte)
      → length text ≤ max_message_size
      → json.unmarshal_request text ≡ some req
      → joined reads ≡ write_length_prefixed text ++ rest
      → read_request json Format.protobuf reads ≡ message req (skip (4 + length text) reads)
  unfolding read_request decoded frame bounded
  read_request-first reads req text rest short is at =
      let read : read_length_prefixed (joined reads) ≡ got (text, rest) =
        ap read_length_prefixed at ∙ read-write_length_prefixed text rest short in
      rw (read_request, read, frame, bounded, small (length text) short, decoded, is) refl

  rest-joined :
      (reads : List (List Byte)) (text rest : List Byte)
      → joined reads ≡ write_length_prefixed text ++ rest
      → joined (skip (4 + length text) reads) ≡ rest
  rest-joined reads text rest at =
      joined-skip (4 + length text) reads
      ∙ rw at (rw (← length-write text) (drop-append (write_length_prefixed text) rest))

  -- Requests that were sent as frames of a megabyte at most come out of the loop's reads as they
  -- were sent, and in this order, however the connection cuts their bytes into reads.
  pub read_requests-Sent :
      {reqs : List (JsonRequest Raw)} {bytes : List Byte} (reads : List (List Byte))
      → Sent reqs bytes
      → joined reads ≡ bytes
      → read_requests json (length reqs) Format.protobuf reads ≡ reqs
  unfolding read_requests
  read_requests-Sent reads none_sent at = refl
  read_requests-Sent reads (one_sent {bytes = bytes} req text short is sent) at =
      let first = read_request-first reads req text bytes short is at in
      let later =
        read_requests-Sent (skip (4 + length text) reads) sent (rest-joined reads text bytes at) in
      rw (read_requests, first) (ap (◌∷◌ req) later)
