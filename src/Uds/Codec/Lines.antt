-- ===== src/Uds/Codec/Lines.antt =====
-- Messages that end in a newline.
use mathlib.Core.List.{append_assoc}
use auth_imp.Base.{
  ℕ, ◌≤◌, ◌<◌, ◌≡◌, refl, sym, ap, ◌∙◌, subst, false, none, some, List, [], ◌∷◌, ◌++◌, arith,
  length, length-append, ltb,
}
use auth_imp.Uds.Codec.{
  Byte, joined, got, max_json_message_size, newline, before_newline, drop_cr, scan,
  read_request_line,
}

before_newline-line :
    (line extra : List Byte)
    → before_newline line ≡ none
    → before_newline (line ++ newline ∷ extra) ≡ some line
unfolding before_newline
before_newline-line [] extra h = refl
before_newline-line (b ∷ line) extra h = ground (arith, before_newline-line line extra)

before_newline-prefix :
    (xs ys : List Byte) → before_newline (xs ++ ys) ≡ none → before_newline xs ≡ none
unfolding before_newline
before_newline-prefix [] ys h = refl
before_newline-prefix (b ∷ xs) ys h = ground (arith, before_newline-prefix xs ys)

length-drop_cr : (line : List Byte) → length (drop_cr line) ≤ length line
unfolding drop_cr
length-drop_cr [] = omega arith
length-drop_cr (b ∷ []) = ground arith
length-drop_cr (b ∷ c ∷ line) = ground (arith, length-drop_cr (c ∷ line))

-- One more read, where the buffer holds no line yet.
scan-more :
    (limit : ℕ) (buffer chunk : List Byte) (reads : List (List Byte))
    → before_newline buffer ≡ none
    → length buffer < limit
    → scan limit buffer (chunk ∷ reads) ≡ scan limit (buffer ++ chunk) reads
unfolding scan
scan-more limit buffer chunk reads h room = ground (arith, h)

scan-line :
    (limit : ℕ) (buffer line : List Byte) (reads : List (List Byte))
    → before_newline buffer ≡ some line
    → scan limit buffer reads ≡ got (drop_cr line, reads)
unfolding scan
scan-line limit buffer line [] h = rw (h, scan)
scan-line limit buffer line (chunk ∷ reads) h = rw (h, scan)

-- A line that comes in parts is put together, and what stands behind its newline in the last read
-- is lost.
pub scan-parts :
    (limit : ℕ) (parts : List (List Byte)) (buffer tail extra : List Byte)
    (reads : List (List Byte))
    → before_newline (buffer ++ (joined parts ++ tail)) ≡ none
    → length (buffer ++ (joined parts ++ tail)) < limit
    → scan limit buffer (parts ++ (tail ++ newline ∷ extra) ∷ reads)
      ≡ got (drop_cr (buffer ++ (joined parts ++ tail)), reads)
unfolding joined
scan-parts limit [] buffer tail extra reads h room =
    let free : before_newline buffer ≡ none = before_newline-prefix buffer tail h in
    let short : length buffer < limit = omega (arith, length-append buffer tail) in
    scan-more limit buffer (tail ++ newline ∷ extra) reads free short
    ∙ ap (λ l. scan limit l reads) (sym (append_assoc buffer tail (newline ∷ extra)))
    ∙ scan-line limit _ (buffer ++ tail) reads (before_newline-line (buffer ++ tail) extra h)
scan-parts limit (part ∷ parts) buffer tail extra reads h room =
    let step : (buffer ++ part) ++ (joined parts ++ tail)
        ≡ buffer ++ ((part ++ joined parts) ++ tail) =
      append_assoc buffer part (joined parts ++ tail)
      ∙ ap (λ l. buffer ++ l) (sym (append_assoc part (joined parts) tail)) in
    let free : before_newline buffer ≡ none = before_newline-prefix buffer _ h in
    let short : length buffer < limit =
      omega (arith, length-append buffer ((part ++ joined parts) ++ tail)) in
    scan-more limit buffer part _ free short
    ∙ scan-parts limit parts (buffer ++ part) tail extra reads (ap before_newline step ∙ h)
        (subst (λ l. length l < limit) (sym step) room)
    ∙ ap (λ l. got (drop_cr l, reads)) step

-- A request of less than 512 KiB without a newline that comes in any number of reads, the last of
-- which has a newline behind it, is handed on without a carriage return at its end. What the last
-- of these reads holds behind the newline is in neither the request nor the reads that are left.
pub read_request_line-parts :
    (parts : List (List Byte)) (tail extra : List Byte) (reads : List (List Byte))
    → before_newline (joined parts ++ tail) ≡ none
    → length (joined parts ++ tail) < max_json_message_size
    → read_request_line (parts ++ (tail ++ newline ∷ extra) ∷ reads)
      ≡ got (drop_cr (joined parts ++ tail), reads)
unfolding read_request_line
read_request_line-parts parts tail extra reads h room =
    let short : ltb max_json_message_size (length (drop_cr (joined parts ++ tail))) ≡ false =
      ground (arith, length-drop_cr (joined parts ++ tail)) in
    rw (scan-parts max_json_message_size parts [] tail extra reads h room, short)
