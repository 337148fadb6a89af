-- ===== src/Uds/Reader.antt =====
-- `lengthPrefixedReader` of internal/uds/server.go, which hands out a frame's length and its body
-- again, in as many reads as its caller makes.
use auth_imp.Base.{
  ℕ, zero, suc, ◌+◌, ◌≤◌, ◌<◌, ◌≡◌, refl, ap, sym, subst, ◌∙◌, inl, inr, ◌⊎◌, Bool, true, false,
  Bool-cases, Option, none, some, List, [], ◌∷◌, ◌++◌, leb, eqb, if◌then◌else◌, length, take, drop,
  length-take, length-drop, drop_all, arith, length-append,
}
use mathlib.Core.List.{append_assoc}
use auth_imp.Uds.Codec.{Byte}

pub record LengthPrefixedReader : Type 0 where
  pub len_buf : List Byte
  pub body : List Byte
  pub pos : ℕ
  -- 0 at the length, 1 at the body
  pub phase : ℕ

-- The bytes of a read, whether it reports the end, and the reader after it.
abbrev pub ReadOutcome : Type 0
ReadOutcome = List Byte × (Bool × LengthPrefixedReader)

-- The part of `Read` for the body, with a buffer of `n` bytes.
unfoldable pub read_body : ℕ → LengthPrefixedReader → ReadOutcome
read_body n r =
    let out = take n (drop r.pos r.body) in
    if leb (length r.body) r.pos
    then ([], (true, r))
    else (out, (false, record r { pos = r.pos + length out }))

-- `Read`, with a buffer of `n` bytes.
unfoldable pub read : ℕ → LengthPrefixedReader → ReadOutcome
unfolding read_body
read n r =
    let out = take n (drop r.pos r.len_buf) in
    if eqb r.phase 0
    then if leb (length r.len_buf) r.pos
      then read_body n (record r { phase = 1; pos = 0 })
      else (out, (false, record r { pos = r.pos + length out }))
    else read_body n r

-- The reader that `performHandshake` makes.
abbrev pub reader : List Byte → List Byte → LengthPrefixedReader
reader len_buf body = record { len_buf = len_buf; body = body; pos = 0; phase = 0 }

-- A caller that reads with buffers of one size up to the end, at most `fuel` times.
unfoldable pub drained : ℕ → ℕ → LengthPrefixedReader → Option (List Byte)
unfolding read
drained zero n r = none
drained (suc fuel) n r =
    let (out, (ended, next)) = read n r in
    let rest = drained fuel n next in
    if ended then some out else elim rest [ none ↦ none | some more ↦ some (out ++ more) ]

-- What is still to be read.
abbrev pub remaining : LengthPrefixedReader → List Byte
remaining r = if eqb r.phase 0 then drop r.pos r.len_buf ++ r.body else drop r.pos r.body

take-drop-length : (n : ℕ) (xs : List Byte) → take n xs ++ drop (length (take n xs)) xs ≡ xs
take-drop-length zero xs = refl
take-drop-length (suc n) [] = refl
take-drop-length (suc n) (x ∷ xs) = ap (◌∷◌ x) (take-drop-length n xs)

drop-drop : (m k : ℕ) (xs : List Byte) → drop (m + k) xs ≡ drop k (drop m xs)
drop-drop zero k xs = let same : 0 + k ≡ k = omega arith in rw same refl
drop-drop (suc m) k [] = drop_all (suc m + k) [] (omega arith) ∙ sym (drop_all k [] (omega arith))
drop-drop (suc m) k (x ∷ xs) =
    let same : suc m + k ≡ suc (m + k) = omega arith in rw same (drop-drop m k xs)

-- What a read takes off the front of what is behind a position.
rest-behind :
    (n pos : ℕ) (xs : List Byte)
    → take n (drop pos xs) ++ drop (pos + length (take n (drop pos xs))) xs ≡ drop pos xs
rest-behind n pos xs =
    rw (drop-drop pos (length (take n (drop pos xs))) xs) (take-drop-length n (drop pos xs))

at_end : (a b : ℕ) → leb a b ≡ true → a ≤ b
at_end a b e = ground arith

before_end : (a b : ℕ) → leb a b ≡ false → suc b ≤ a
before_end a b e = ground arith

progress :
    (n pos : ℕ) (xs : List Byte)
    → leb (length xs) pos ≡ false
    → 1 ≤ n
    → 1 ≤ length (take n (drop pos xs))
progress n pos xs left some_room =
    omega (arith, length-take n (drop pos xs), length-drop pos xs, before_end (length xs) pos left)

outcome-cases :
    (o : ReadOutcome)
    → ((out : List Byte) × (next : LengthPrefixedReader) × (o ≡ (out, (true, next))))
      ⊎ ((out : List Byte) × (next : LengthPrefixedReader) × (o ≡ (out, (false, next))))
outcome-cases (out, (true, next)) = inl (out, next, refl)
outcome-cases (out, (false, next)) = inr (out, next, refl)

module _ (n : ℕ) (some_room : 1 ≤ n) where
  -- The end is reported where nothing is left, without a byte; any other read has a byte, and its
  -- bytes and what is then left are what was left.
  abbrev Continues : List Byte → ReadOutcome → Type 0
  Continues left (out, (true, next)) = (out ≡ []) × (left ≡ [])
  Continues left (out, (false, next)) = (out ++ remaining next ≡ left) × (1 ≤ length out)

  read_body-Continues :
      (r : LengthPrefixedReader)
      → eqb r.phase 0 ≡ false
      → Continues (drop r.pos r.body) (read_body n r)
  unfolding read_body
  read_body-Continues r second = elim (Bool-cases (leb (length r.body) r.pos)) [
    | inl finished ↦
        rw (finished, read_body)
          (refl, drop_all r.pos r.body (at_end (length r.body) r.pos finished))
    | inr left ↦
        rw (left, read_body, second)
          (rest-behind n r.pos r.body, progress n r.pos r.body left some_room)
  ]

  read-Continues : (r : LengthPrefixedReader) → Continues (remaining r) (read n r)
  unfolding read
  read-Continues r = elim (Bool-cases (eqb r.phase 0)) [
    | inr second ↦ rw (second, read) (read_body-Continues r second)
    | inl first ↦ elim (Bool-cases (leb (length r.len_buf) r.pos)) [
      | inl finished ↦
          rw (first, read, finished)
            (let turned = record r { phase = 1; pos = 0 } in
              let same : drop r.pos r.len_buf ++ r.body ≡ r.body =
                rw (drop_all r.pos r.len_buf (at_end (length r.len_buf) r.pos finished)) refl in
              subst (λ l. Continues l (read_body n turned)) (sym same)
                (read_body-Continues turned refl))
      | inr left ↦
          rw (first, read, left)
            (
              rw first (
                  sym (append_assoc (take n (drop r.pos r.len_buf)) _ r.body)
                  ∙ ap (λ l. l ++ r.body) (rest-behind n r.pos r.len_buf)),
              progress n r.pos r.len_buf left some_room,
            )
    ]
  ]

  -- Whatever the buffer's size, if it is not zero, a caller that reads up to the end gets exactly the
  -- bytes that were left, and needs at most one read more than there are such bytes.
  pub drained-remaining :
      (fuel : ℕ) (r : LengthPrefixedReader)
      → length (remaining r) < fuel
      → drained fuel n r ≡ some (remaining r)
  unfolding drained
  drained-remaining zero r enough = absurd (omega (arith, enough))
  drained-remaining (suc fuel) r enough =
      let steps = read-Continues r in
      elim (outcome-cases (read n r)) [
        | inl (out, next, e) ↦
            let (none_out, none_left) = rw e at steps in
            rw (drained, e) (ap some (none_out ∙ sym none_left))
        | inr (out, next, e) ↦
            let (together, some_out) = rw e at steps in
            let smaller : length (remaining next) < fuel =
              omega
                (arith, enough, some_out, length-append out (remaining next), ap length together) in
            let later = drained-remaining fuel next smaller in ground (arith, e, later, together)
      ]
