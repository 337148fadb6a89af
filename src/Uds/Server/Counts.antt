-- ===== src/Uds/Server/Counts.antt =====
-- Counting up and down in Go's `int64`.
use auth_imp.Base.{ℕ, suc, ◌≡◌, ◌<◌, ◌^◌, arith}
use auth_imp.Base.Int.{pos, negsuc, add_int, int64}

pub int64_up : (n : ℕ) → add_int (int64 n) (pos 1) ≡ int64 (suc n)
int64_up n = ground arith

pub int64_down : (n : ℕ) → add_int (int64 (suc n)) (negsuc 0) ≡ int64 n
int64_down n = ground arith

pub int64_small : (n : ℕ) → n < 2 ^ 63 → int64 n ≡ pos n
int64_small n h = ground arith
