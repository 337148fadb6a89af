-- ===== src/Uds/Handshake.antt =====
-- `performHandshake` and `validateHandshake` of internal/uds/server.go. The decoding of the JSON
-- text of a request is a parameter.
pub mod Formats
use Prim.Native.String.{◌++◌}
use auth_imp.Base.{
  ℕ, zero, suc, ◌+◌, ◌-◌, String, Bool, not, Option, none, some, List, [], ◌∷◌, ◌==◌, ◌&&◌, leb,
  ltb, eqb, if◌then◌else◌, length, take, drop,
}
use auth_imp.Uds.Codec.{
  Byte, joined, multi_reader, ReadResult, got, failed, eof, unexpected_eof, too_large, ◌>>=◌,
  max_message_size, max_scan_token_size, get_uint32, read_full, scan, read_length_prefixed,
}

-- `Format`
pub data Format : Type 0 where
  json protobuf : Format

unfoldable pub format_text : Format → String
format_text Format.json = "json"
format_text Format.protobuf = "protobuf"

abbrev pub protocol_version : String
protocol_version = "1.0"

pub record HandshakeRequest : Type 0 where
  pub version : String
  pub format : String
  pub supported_versions : List String

pub record HandshakeResponse : Type 0 where
  pub status : String
  pub version : String
  pub format : String
  pub error_message : String

-- The text of the error that `validateHandshake` returns, if it returns one.
unfoldable pub validate_handshake : HandshakeRequest → Option String
unfolding format_text
validate_handshake req =
    if req.version == ""
    then some "version is required"
    else if not (req.format == format_text Format.json)
        && not (req.format == format_text Format.protobuf)
    then some ("unsupported format: " ++ req.format)
    else none

-- What a handshake comes to: the connection is closed without a whole answer, closed behind the
-- answer that refuses the request, if that could be written, or goes on in a format behind an answer,
-- with the reads that are left.
pub data Handshake : Type 0 where
  closed : Handshake
  refused : Format → HandshakeResponse → Handshake
  agreed : Format → HandshakeResponse → List (List Byte) → Handshake

-- The reads behind the first `n` bytes.
unfoldable pub skip : ℕ → List (List Byte) → List (List Byte)
skip zero reads = reads
skip (suc n) [] = []
skip (suc n) (chunk ∷ reads) =
    let later = skip (suc n - length chunk) reads in
    if leb (length chunk) (suc n) then later else drop (suc n) chunk ∷ reads

-- The end of both branches of `performHandshake`, on the request that the codec read. `written` says
-- whether `WriteHandshake` succeeds, which does not matter where the request is refused.
unfoldable pub answer : Bool → Format → HandshakeRequest → List (List Byte) → Handshake
unfolding validate_handshake format_text
answer written format req rest = elim (validate_handshake req) [
  | some text ↦
      refused format (record { status = "error"; version = ""; format = ""; error_message = text })
  | none ↦
      if written
      then agreed format
          (record {
            status = "ok";
            version = protocol_version;
            format = format_text format;
            error_message = "";
          })
          rest
      else closed
]

-- `'{'`
abbrev pub open_brace : Byte
open_brace = 123

module _ (unmarshal : List Byte → Option HandshakeRequest) (written : Bool) where
  -- The rest of a JSON handshake, behind the scanner.
  unfoldable pub json_answer : ReadResult (List Byte × List (List Byte)) → Handshake
  json_answer (failed e) = closed
  json_answer (got (line, rest)) = elim (unmarshal line) [
    | none ↦ closed
    | some req ↦ answer written Format.json req rest
  ]

  -- A JSON handshake: the first byte is put back in front of the reads, for a scanner whose buffer
  -- is not set.
  unfoldable pub json_handshake : Byte → List (List Byte) → Handshake
  unfolding json_answer
  json_handshake first reads = json_answer (scan max_scan_token_size [] ((first ∷ []) ∷ reads))

  -- The end of a handshake behind a length: what the codec reads from the length and the body, put
  -- back in front of the connection, whose reads are those behind the first `n` bytes of `reads`.
  unfoldable pub frame_answer :
      ℕ → List (List Byte) → ReadResult (List Byte × List Byte) → Handshake
  frame_answer n reads (failed e) = closed
  frame_answer n reads (got (text, _)) = elim (unmarshal text) [
    | none ↦ closed
    | some req ↦ answer written Format.protobuf req (skip n reads)
  ]

  -- What follows the first read of the length and the body, with `io.MultiReader` of the two and
  -- the connection as one stream.
  unfoldable pub frame_again : List (List Byte) → ReadResult (List Byte × List Byte) → Handshake
  unfolding frame_answer
  frame_again reads (failed e) = closed
  frame_again reads (got (body, rest)) =
      frame_answer (4 + length body) reads
        (read_length_prefixed (multi_reader (take 4 (joined reads)) (multi_reader body rest)))

  -- A handshake behind a length of four bytes, the first of which is the first byte of `reads`.
  unfoldable pub frame_handshake : List (List Byte) → Handshake
  unfolding frame_again
  frame_handshake reads = frame_again reads (read_length_prefixed (joined reads))

  -- The first byte, which is read alone, tells the format.
  unfoldable pub pick_format : List (List Byte) → List Byte → Handshake
  unfolding json_handshake frame_handshake skip
  pick_format reads [] = closed
  pick_format reads (first ∷ more) =
      if eqb first open_brace then json_handshake first (skip 1 reads) else frame_handshake reads

  unfoldable pub perform_handshake : List (List Byte) → Handshake
  unfolding pick_format
  perform_handshake reads = pick_format reads (joined reads)
