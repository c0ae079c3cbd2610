-- ===== src/Memref/Words.antt =====
-- What memref-test/include/lender.h and the C of its users need: pages as lists of bytes, `int`
-- values, and the messages of the lender.
use trusty_app_sample.Common.{
  Bool, List, Run, arith, drop, false, fault, if◌then◌else◌, leb, length, ltb, negsuc, ok,
  out_of_bounds, pos, take, ℕ, ℤ, ◌%◌, ◌++◌, ◌+◌, ◌-◌, ◌<◌, ◌==◌, ◌>>=◌, ◌^◌, ◌≡◌,
}

abbrev pub page_size : ℕ
page_size = 4096

abbrev pub max_write : ℕ
max_write = 2048

-- `sizeof(struct lender_msg)`
abbrev pub msg_size : ℕ
msg_size = 24

-- An enumeration that comes from a message can have any value.
pub data LenderCommand : Type 0 where
  lend_bss lend_ro lend_rw suicide read_bss write_bss invalid_command : LenderCommand
  other : ℕ → LenderCommand

pub record LenderRegion : Type 0 where
  pub offset : ℕ
  pub size : ℕ

pub record LenderMsg : Type 0 where
  pub cmd : LenderCommand
  pub region : LenderRegion

-- `(int)n` for a `size_t`
abbrev pub to_int : ℕ → ℤ
to_int n = let m = n % 2 ^ 32 in if ltb m (2 ^ 31) then pos m else negsuc (2 ^ 32 - 1 - m)

-- `rc == (int)n`
abbrev pub eq_int : ℤ → ℤ → Bool
eq_int (pos m) (pos n) = m == n
eq_int (pos m) (negsuc n) = false
eq_int (negsuc m) (pos n) = false
eq_int (negsuc m) (negsuc n) = m == n

pub to_int_small : (n : ℕ) → n < 2 ^ 31 → to_int n ≡ pos n
to_int_small n h = ground arith

-- The bytes at an offset, if they are all in the buffer.
unfoldable pub copy_out : List ℕ → ℕ → ℕ → Run (List ℕ)
copy_out buf off n =
    if leb (off + n) (length buf) then ok (take n (drop off buf)) else fault out_of_bounds

-- The buffer with the bytes written at an offset.
abbrev pub splice : List ℕ → ℕ → List ℕ → List ℕ
splice buf off src = take off buf ++ (src ++ drop (off + length src) buf)

-- `memcpy(&buf[off], src, n)`
unfoldable pub copy_in : List ℕ → ℕ → List ℕ → ℕ → Run (List ℕ)
copy_in buf off src n = copy_out src 0 n >>= λ bytes.
    if leb (off + n) (length buf) then ok (splice buf off bytes) else fault out_of_bounds
