-- ===== src/Uds/Handshake/Formats.antt =====
-- How a handshake tells the two formats apart.
use auth_imp.Base.{
  ℕ, zero, suc, ◌-◌, ◌%◌, ◌^◌, ◌≤◌, ◌<◌, ◌≡◌, ◌≢◌, ◌↔◌, ◌⊎◌, inl, inr, refl, sym, ap, ◌∙◌, Bool,
  true, Option, none, some, List, [], ◌∷◌, ◌++◌, eqb, if◌then◌else◌, length, drop, arith, eq_iff,
  Option-cases,
}
use auth_imp.Uds.Codec.{
  Byte, joined, ReadResult, got, failed, max_scan_token_size, newline, before_newline, drop_cr,
  scan, put_uint32, write_length_prefixed,
}
use auth_imp.Uds.Codec.Lines.{scan-parts}
use auth_imp.Uds.Handshake.{
  Format, format_text, HandshakeRequest, HandshakeResponse, validate_handshake, agreed, skip,
  answer, open_brace, json_answer, json_handshake, frame_handshake, pick_format, perform_handshake,
}

-- A request is accepted exactly when it has a version and names one of the two formats.
pub validate_handshake_iff :
    (req : HandshakeRequest)
    → validate_handshake req ≡ none
      ↔ (req.version ≢ "") × ((req.format ≡ "json") ⊎ (req.format ≡ "protobuf"))
unfolding validate_handshake format_text
validate_handshake_iff req =
    ground (arith, eq_iff req.version "", eq_iff req.format "json", eq_iff req.format "protobuf")

drop_past :
    (n : ℕ) (xs ys : List Byte) → length xs ≤ n → drop n (xs ++ ys) ≡ drop (n - length xs) ys
drop_past n [] ys h = ap (λ k. drop k ys) (omega arith)
drop_past zero (x ∷ xs) ys h = absurd (omega arith)
drop_past (suc n) (x ∷ xs) ys h =
    drop_past n xs ys (omega arith) ∙ ap (λ k. drop k ys) (omega arith)

drop_within : (n : ℕ) (xs ys : List Byte) → n < length xs → drop n (xs ++ ys) ≡ drop n xs ++ ys
drop_within zero xs ys h = refl
drop_within (suc n) [] ys h = absurd (omega arith)
drop_within (suc n) (x ∷ xs) ys h = drop_within n xs ys (omega arith)

-- The bytes behind the first `n` are those of the reads that `skip` leaves.
pub joined-skip : (n : ℕ) (reads : List (List Byte)) → joined (skip n reads) ≡ drop n (joined reads)
unfolding joined skip
joined-skip zero reads = refl
joined-skip (suc n) [] = refl
joined-skip (suc n) (chunk ∷ reads) = ground (
  arith,
  drop_past (suc n) chunk (joined reads),
  drop_within (suc n) chunk (joined reads),
  joined-skip (suc n - length chunk) reads,
)

module _ (unmarshal : List Byte → Option HandshakeRequest) (written : Bool) where
  -- The first byte picks the format.
  perform-first :
      (reads : List (List Byte)) (first : Byte) (more : List Byte)
      → joined reads ≡ first ∷ more
      → perform_handshake unmarshal written reads ≡ (
          if eqb first open_brace
          then json_handshake unmarshal written first (skip 1 reads)
          else frame_handshake unmarshal written reads)
  unfolding perform_handshake pick_format
  perform-first reads first more e = ap (pick_format unmarshal written reads) e

  low_byte : (n : ℕ) → n % 2 ^ 32 % 256 ≡ n % 256
  low_byte n = omega arith

  answer-json :
      (req : HandshakeRequest) (rest : List (List Byte)) (response : HandshakeResponse)
      (left : List (List Byte))
      → answer written Format.json req rest ≢ agreed Format.protobuf response left
  unfolding answer
  answer-json req rest response left h = elim (Option-cases (validate_handshake req)) [
    | inl e ↦ ground (arith, written, e, h)
    | inr (text, e) ↦ ground (arith, e, h)
  ]

  agreed_json :
      (read : ReadResult (List Byte × List (List Byte))) (response : HandshakeResponse)
      (left : List (List Byte))
      → json_answer unmarshal written read ≢ agreed Format.protobuf response left
  unfolding json_answer
  agreed_json (failed e) response left h = ground (arith, h)
  agreed_json (got (line, rest)) response left h = elim (Option-cases (unmarshal line)) [
    | inl e ↦ ground (arith, e, h)
    | inr (req, e) ↦ ground (arith, e, h, answer-json req rest response left)
  ]

  -- A frame whose length has the low byte of an open brace, 123, at the front of the stream, never
  -- leads to an agreement on the frame format.
  pub perform_handshake-misread :
      (reads : List (List Byte)) (body rest : List Byte) (response : HandshakeResponse)
      (left : List (List Byte))
      → joined reads ≡ write_length_prefixed body ++ rest
      → length body % 256 ≡ open_brace
      → perform_handshake unmarshal written reads ≢ agreed Format.protobuf response left
  unfolding json_handshake write_length_prefixed put_uint32
  perform_handshake-misread reads body rest response left e low agreement =
      let first : eqb (length body % 2 ^ 32 % 256) open_brace ≡ true = ground arith in
      agreed_json (scan max_scan_token_size [] ((length body % 2 ^ 32 % 256 ∷ []) ∷ skip 1 reads))
        response left (sym (perform-first reads _ _ e ∙ rw first) ∙ agreement)

  -- A JSON handshake of less than 64 KiB, in any number of reads, is decoded without its newline and
  -- answered in JSON, whichever of the two formats it names. What its last read holds behind the
  -- newline is lost.
  pub perform_handshake-json :
      (reads : List (List Byte)) (more : List Byte) (parts : List (List Byte))
      (tail extra : List Byte) (later : List (List Byte)) (req : HandshakeRequest)
      → joined reads ≡ open_brace ∷ more
      → skip 1 reads ≡ parts ++ (tail ++ newline ∷ extra) ∷ later
      → before_newline (open_brace ∷ joined parts ++ tail) ≡ none
      → length (open_brace ∷ joined parts ++ tail) < max_scan_token_size
      → unmarshal (drop_cr (open_brace ∷ joined parts ++ tail)) ≡ some req
      → perform_handshake unmarshal written reads ≡ answer written Format.json req later
  unfolding json_handshake json_answer joined
  perform_handshake-json reads more parts tail extra later req brace e h short decoded =
      perform-first reads open_brace more brace
      ∙ ap
          (λ l. json_answer unmarshal written (scan max_scan_token_size [] ((open_brace ∷ []) ∷ l)))
          e
      ∙ ap (json_answer unmarshal written)
          (scan-parts max_scan_token_size ((open_brace ∷ []) ∷ parts) [] tail extra later h short)
      ∙ rw (decoded, json_answer)
