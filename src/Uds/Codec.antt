-- ===== src/Uds/Codec.antt =====
-- The two framings of internal/uds/codec.go: lines that end in a newline, read with a fresh
-- `bufio.Scanner` for each message, and messages behind a length of four bytes. Bytes are numbers
-- below 256. A connection is what its calls of `Read` return, one list of bytes for each call, up to
-- the end of the stream; a framing that asks for a number of bytes reads across these lists.
pub mod Frames
pub mod Lines
use auth_imp.Base.{
  ℕ, ◌+◌, ◌-◌, ◌*◌, ◌/◌, ◌%◌, ◌^◌, Bool, true, false, Option, none, some, List, [], ◌∷◌, ◌++◌, ltb,
  leb, eqb, if◌then◌else◌, length, take, drop,
}

abbrev pub Byte : Type 0
Byte = ℕ

-- `MaxMessageSize` and `MaxJSONMessageSize`
abbrev pub max_message_size : ℕ
max_message_size = 1_048_576

abbrev pub max_json_message_size : ℕ
max_json_message_size = 524_288

-- `bufio.MaxScanTokenSize`, the limit of a scanner whose buffer is not set.
abbrev pub max_scan_token_size : ℕ
max_scan_token_size = 65_536

pub data ReadError : Type 0 where
  eof unexpected_eof too_large token_too_long : ReadError

pub data ReadResult (A : Type 0) : Type 0 where
  got : A → ReadResult A
  failed : ReadError → ReadResult A

infixl 5 ◌>>=◌
abbrev pub ◌>>=◌ : {A B : Type 0} → ReadResult A → (A → ReadResult B) → ReadResult B
got a >>= f = f a
failed e >>= f = failed e

-- The bytes of several reads.
unfoldable pub joined : List (List Byte) → List Byte
joined [] = []
joined (chunk ∷ reads) = chunk ++ joined reads

-- `io.MultiReader` of two readers
abbrev pub multi_reader : List Byte → List Byte → List Byte
multi_reader first second = first ++ second

-- `binary.LittleEndian.PutUint32` and `Uint32`
unfoldable pub put_uint32 : ℕ → List Byte
put_uint32 n = (n % 256) ∷ (n / 256 % 256) ∷ (n / 65_536 % 256) ∷ (n / 16_777_216 % 256) ∷ []

unfoldable pub get_uint32 : List Byte → ℕ
get_uint32 (a ∷ b ∷ c ∷ d ∷ rest) = a + b * 256 + c * 65_536 + d * 16_777_216
get_uint32 _ = 0

-- `io.ReadFull` of `n` bytes: no byte at all is the end of the stream, too few are an error.
unfoldable pub read_full : ℕ → List Byte → ReadResult (List Byte × List Byte)
read_full n bytes =
    if leb n (length bytes)
    then got (take n bytes, drop n bytes)
    else if eqb (length bytes) 0
    then failed eof
    else failed unexpected_eof

unfoldable pub read_length_prefixed : List Byte → ReadResult (List Byte × List Byte)
unfolding read_full get_uint32
read_length_prefixed bytes = do
  (len_buf, rest) ← read_full 4 bytes
  let msg_len = get_uint32 len_buf
  if ltb max_message_size msg_len then failed too_large else read_full msg_len rest

-- `uint32(len(data))` wraps. The two writes reach the peer one behind the other.
unfoldable pub write_length_prefixed : List Byte → List Byte
unfolding put_uint32
write_length_prefixed bytes = put_uint32 (length bytes % 2 ^ 32) ++ bytes

abbrev pub newline : Byte
newline = 10

abbrev pub carriage_return : Byte
carriage_return = 13

-- The bytes before the first newline, if there is one.
unfoldable pub before_newline : List Byte → Option (List Byte)
before_newline [] = none
before_newline (b ∷ bs) =
    let later = before_newline bs in
    if eqb b newline then some [] else elim later [ none ↦ none | some line ↦ some (b ∷ line) ]

-- A carriage return at the end of a line is dropped.
unfoldable pub drop_cr : List Byte → List Byte
drop_cr [] = []
drop_cr (b ∷ []) = if eqb b carriage_return then [] else b ∷ []
drop_cr (b ∷ c ∷ bs) = b ∷ drop_cr (c ∷ bs)

-- `scanner.Scan()` of a scanner that has `buffer` in its buffer and takes `limit` bytes at most: the
-- first line, and the reads that are left on the connection. What the buffer holds behind the line
-- goes with the scanner. A read gives no more than the buffer has room for.
unfoldable pub scan : ℕ → List Byte → List (List Byte) → ReadResult (List Byte × List (List Byte))
unfolding before_newline drop_cr
scan limit buffer [] = elim (before_newline buffer) [
  | some line ↦ got (drop_cr line, [])
  | none ↦
      if leb limit (length buffer)
      then failed token_too_long
      else if eqb (length buffer) 0
      then failed eof
      else got (drop_cr buffer, [])
]
scan limit buffer (chunk ∷ reads) =
    let more = scan limit (buffer ++ chunk) reads in
    elim (before_newline buffer) [
      | some line ↦ got (drop_cr line, chunk ∷ reads)
      | none ↦ if leb limit (length buffer) then failed token_too_long else more
    ]

-- The line that `JSONCodec.ReadRequest` hands to the JSON decoder. Its test on the length of the
-- line is kept.
unfoldable pub read_request_line : List (List Byte) → ReadResult (List Byte × List (List Byte))
read_request_line reads = do
  (line, rest) ← scan max_json_message_size [] reads
  if ltb max_json_message_size (length line) then failed too_large else got (line, rest)

-- What `JSONCodec.WriteResponse` and `WriteHandshake` send for a text.
abbrev pub write_line : List Byte → List Byte
write_line text = text ++ newline ∷ []
