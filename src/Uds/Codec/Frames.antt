-- ===== src/Uds/Codec/Frames.antt =====
-- Messages behind a length.
use mathlib.Core.List.{append_assoc}
use auth_imp.Base.{
  ℕ, true, false, ◌%◌, ◌^◌, ◌≤◌, ◌<◌, ◌≡◌, refl, ap, ◌∙◌, List, [], ◌∷◌, ◌++◌, arith, length, take,
  drop, length-append, ltb, if◌then◌else◌,
}
use auth_imp.Uds.Codec.{
  Byte, got, failed, too_large, max_message_size, put_uint32, get_uint32, read_full,
  read_length_prefixed, write_length_prefixed,
}

get-put_uint32 : (n : ℕ) → n < 2 ^ 32 → get_uint32 (put_uint32 n) ≡ n
unfolding get_uint32 put_uint32
get-put_uint32 n h = omega arith

take-append : (xs ys : List Byte) → take (length xs) (xs ++ ys) ≡ xs
take-append [] ys = refl
take-append (x ∷ xs) ys = rw (take-append xs ys)

pub drop-append : (xs ys : List Byte) → drop (length xs) (xs ++ ys) ≡ ys
drop-append [] ys = refl
drop-append (x ∷ xs) ys = drop-append xs ys

read_full-append : (xs ys : List Byte) → read_full (length xs) (xs ++ ys) ≡ got (xs, ys)
unfolding read_full
read_full-append xs ys = ground (arith, length-append xs ys, take-append xs ys, drop-append xs ys)

-- What is behind a header of four bytes is read as the header says.
read-header :
    (n : ℕ) (rest : List Byte)
    → n < 2 ^ 32
    → read_length_prefixed (put_uint32 n ++ rest)
      ≡ (if ltb max_message_size n then failed too_large else read_full n rest)
unfolding read_length_prefixed put_uint32
read-header n rest h = ground (arith, get-put_uint32 n h, read_full)

below_limit : (n : ℕ) → n ≤ max_message_size → ltb max_message_size n ≡ false
below_limit n h = ground arith

unwrapped : (n : ℕ) → n ≤ max_message_size → n % 2 ^ 32 ≡ n
unwrapped n h = omega arith

-- A message of at most a megabyte that was written is read back, and what comes behind it is left
-- on the stream.
pub read-write_length_prefixed :
    (bytes rest : List Byte)
    → length bytes ≤ max_message_size
    → read_length_prefixed (write_length_prefixed bytes ++ rest) ≡ got (bytes, rest)
unfolding write_length_prefixed
read-write_length_prefixed bytes rest h =
    ap read_length_prefixed (append_assoc (put_uint32 (length bytes % 2 ^ 32)) bytes rest)
    ∙ read-header (length bytes % 2 ^ 32) (bytes ++ rest) (omega arith)
    ∙ rw (unwrapped (length bytes) h, below_limit (length bytes) h, read_full-append bytes rest)

above_limit : (n : ℕ) → max_message_size < n → ltb max_message_size n ≡ true
above_limit n h = ground arith

-- A message of more than a megabyte and less than four gigabytes, which the writer sends without a
-- test, is refused by the reader, whatever is behind it.
pub read-write_too_large :
    (bytes rest : List Byte)
    → max_message_size < length bytes
    → length bytes < 2 ^ 32
    → read_length_prefixed (write_length_prefixed bytes ++ rest) ≡ failed too_large
unfolding write_length_prefixed
read-write_too_large bytes rest h bound =
    let wrap : length bytes % 2 ^ 32 ≡ length bytes = omega arith in
    ap read_length_prefixed (append_assoc (put_uint32 (length bytes % 2 ^ 32)) bytes rest)
    ∙ read-header (length bytes % 2 ^ 32) (bytes ++ rest) (omega arith)
    ∙ rw (wrap, above_limit (length bytes) h)
