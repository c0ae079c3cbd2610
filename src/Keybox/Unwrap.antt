-- ===== src/Keybox/Unwrap.antt =====
-- hwcrypto/keybox/keybox.c: `keybox_unwrap`. A buffer is a list of bytes; an access outside it is
-- the fault `out_of_bounds`.
pub mod Spec
pub mod Laws
mod Tests
use trusty_app_sample.Common.{
  ℕ, zero, suc, ◌+◌, ◌-◌, bit_xor, Bool, List, Run, ok, ◌>>=◌, read, write, ltb, ◌==◌,
  if◌then◌else◌,
}

-- `enum keybox_status`
pub data Status : Type 0 where
  success invalid_request unwrap_fail internal_error : Status

-- What `keybox_unwrap` leaves: its result, the output buffer, and `*keybox_plaintext_len`.
pub record Unwrapped : Type 0 where
  pub status : Status
  pub plaintext : List ℕ
  pub plaintext_len : ℕ

-- `for (i = ...) checksum ^= wrapped_keybox[i];` with `k` rounds left.
checksum_loop : List ℕ → (k i checksum : ℕ) → Run ℕ
checksum_loop wrapped zero i checksum = ok checksum
checksum_loop wrapped (suc k) i checksum = do
  b ← read wrapped i
  checksum_loop wrapped k (i + 1) (bit_xor checksum b)

-- `for (i = ...) keybox_plaintext[i] = wrapped_keybox[i] ^ 0x42;` with `k` rounds left.
mask_loop : List ℕ → (k i : ℕ) → List ℕ → Run (List ℕ)
mask_loop wrapped zero i plaintext = ok plaintext
mask_loop wrapped (suc k) i plaintext = do
  b ← read wrapped i
  plaintext' ← write plaintext i (bit_xor b 0x42)
  mask_loop wrapped k (i + 1) plaintext'

-- `plaintext_len` is what `*keybox_plaintext_len` holds at the call.
pub keybox_unwrap :
    (wrapped : List ℕ) (wrapped_len : ℕ) (plaintext : List ℕ) (buf_len plaintext_len : ℕ)
    → Run Unwrapped
keybox_unwrap wrapped wrapped_len plaintext buf_len plaintext_len =
    if ltb wrapped_len 1
    then ok (kept invalid_request)
    else if ltb buf_len (wrapped_len - 1)
    then ok (kept invalid_request)
    else do
      checksum ← checksum_loop wrapped (wrapped_len - 1) 0 0
      last ← read wrapped (wrapped_len - 1)
      if checksum == last then masked else ok (kept unwrap_fail)
  where
    kept : Status → Unwrapped
    kept s = record { status = s; plaintext = plaintext; plaintext_len = plaintext_len }

    masked : Run Unwrapped
    masked = do
      plaintext' ← mask_loop wrapped (wrapped_len - 1) 0 plaintext
      ok (record { status = success; plaintext = plaintext'; plaintext_len = wrapped_len - 1 })
