-- ===== src/Common/Codes.antt =====
-- `int` results of system calls and of the services: a negative number is an error.
use Prim.Native.Nat.{ℕ, zero, suc, ◌+◌, ◌-◌, ◌%◌, ◌^◌}
use mathlib.Core.Bool.{Bool, true, false}

-- `negsuc n` is -(n + 1).
pub data ℤ : Type 0 where
  pos : ℕ → ℤ
  negsuc : ℕ → ℤ

-- `rc < 0`
abbrev pub is_neg : ℤ → Bool
is_neg (pos n) = false
is_neg (negsuc n) = true

-- `NO_ERROR` is 0: `rc == NO_ERROR`, and `!rc`.
abbrev pub is_zero : ℤ → Bool
is_zero (pos zero) = true
is_zero (pos (suc n)) = false
is_zero (negsuc n) = false

-- `(size_t)rc - n` for an `rc` that is not negative: the subtraction wraps.
abbrev pub size_sub : ℕ → ℕ → ℕ
size_sub rc n = (rc + 2 ^ 64 - n) % 2 ^ 64
