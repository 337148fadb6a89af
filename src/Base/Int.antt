-- ===== src/Base/Int.antt =====
-- Go's signed integers over the native numbers, under the library's names.
use Prim.Native.Nat.{ℕ, suc, ◌+◌, ◌-◌, ◌%◌, ◌^◌, ◌≤◌}
use mathlib.Core.Bool.{Bool, false}
use auth_imp.Base.Tests.{ltb, leb, eqb, if◌then◌else◌}

-- `negsuc n` is -(n + 1).
pub data ℤ : Type 0 where
  pos : ℕ → ℤ
  negsuc : ℕ → ℤ

abbrev pub pos_part : ℤ → ℕ
pos_part (pos n) = n
pos_part (negsuc n) = 0

abbrev pub neg_part : ℤ → ℕ
neg_part (pos n) = 0
neg_part (negsuc n) = suc n

-- a - b, as an integer.
abbrev pub sub_ℕ : ℕ → ℕ → ℤ
sub_ℕ a b = if leb b a then pos (a - b) else negsuc (b - a - 1)

abbrev pub is_zero : ℤ → Bool
is_zero (pos n) = eqb n 0
is_zero (negsuc n) = false

infix 50 ◌≤ℤ◌
abbrev pub ◌≤ℤ◌ : ℤ → ℤ → Type 0
a ≤ℤ b = pos_part a + neg_part b ≤ pos_part b + neg_part a

abbrev pub ltb_ℤ : ℤ → ℤ → Bool
ltb_ℤ a b = ltb (pos_part a + neg_part b) (pos_part b + neg_part a)

abbrev pub leb_ℤ : ℤ → ℤ → Bool
leb_ℤ a b = leb (pos_part a + neg_part b) (pos_part b + neg_part a)

-- `a + b` of two `int` values on a 64-bit machine: the true sum, brought back into range by one
-- turn of 2^64 where it leaves it.
abbrev pub add_int : ℤ → ℤ → ℤ
add_int a b =
    let up = pos_part a + pos_part b in
    let down = neg_part a + neg_part b in
    if leb (2 ^ 63 + down) up
    then sub_ℕ up (2 ^ 64 + down)
    else if ltb (2 ^ 63 + up) down
    then sub_ℕ (2 ^ 64 + up) down
    else sub_ℕ up down

-- The values of Go's `int`.
abbrev pub IsInt : ℤ → Type 0
IsInt (pos n) = suc n ≤ 2 ^ 63
IsInt (negsuc n) = suc n ≤ 2 ^ 63

-- A number as an `int64`: its remainder, read as signed.
abbrev pub int64 : ℕ → ℤ
int64 n = let r = n % 2 ^ 64 in if ltb r (2 ^ 63) then pos r else negsuc (2 ^ 64 - r - 1)
