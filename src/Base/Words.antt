-- ===== src/Base/Words.antt =====
-- 32-bit words: wrap-around, single bits, and `|` where one side is aligned.
use cse314_operating_system.Base.Tests.{ltb, leb, ◌==◌, if◌then◌else◌}
use Prim.Native.Nat.{ℕ, ◌+◌, ◌-◌, ◌/◌, ◌%◌, ◌^◌}
use mathlib.Core.Bool.{Bool, ◌&&◌}

-- `(uint)n`
abbrev pub uint : ℕ → ℕ
uint n = n % 2 ^ 32

-- `n - 1` in an `int` or a `uint`
abbrev pub dec32 : ℕ → ℕ
dec32 n = (n + 2 ^ 32 - 1) % 2 ^ 32

-- `n >= k` of an `int` with the bits of `n`, for a constant `k > 0`
abbrev pub int_ge : ℕ → ℕ → Bool
int_ge n k = leb k n && ltb n (2 ^ 31)

-- `w & b`, `w | b` and `w & ~b` for a `b` that is a power of two
abbrev pub has_bit : ℕ → ℕ → Bool
has_bit w b = w / b % 2 == 1

abbrev pub set_bit : ℕ → ℕ → ℕ
set_bit w b = if has_bit w b then w else w + b

abbrev pub clear_bit : ℕ → ℕ → ℕ
clear_bit w b = if has_bit w b then w - b else w
