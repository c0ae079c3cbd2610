-- ===== src/Hwkey/Token.antt =====
-- Access tokens: `is_empty_token` and the token loop of `get_key_handle` in hwcrypto/hwkey_srv.c.
pub mod Laws
use trusty_app_sample.Common.{
  Bool, List, Run, [], assert, false, fault, if◌then◌else◌, is_zero, ltb, ok, out_of_fuel, set, suc,
  true, zero, ℕ, ℤ, ◌&&◌, ◌+◌, ◌-◌, ◌==◌, ◌>>◌, ◌∷◌,
}
use trusty_app_sample.Hwkey.Model.{Device, handle_size}

-- The loop of `is_empty_token`: no byte differs from 0.
all_zero : List ℕ → Bool
all_zero [] = true
all_zero (c ∷ t) = c == 0 && all_zero t

-- `strnlen`, over a buffer of as many bytes as the limit.
strnlen : List ℕ → ℕ
strnlen [] = 0
strnlen (c ∷ t) = if c == 0 then 0 else suc (strnlen t)

pub is_empty_token : List ℕ → Run Bool
unfolding all_zero strnlen
is_empty_token t =
    if all_zero t then ok true else (assert (strnlen t == handle_size - 1) >> ok false)

-- One byte of the random buffer: it is kept if it is not 0.
abbrev keep_byte : ℕ → ℕ × List ℕ → ℕ × List ℕ
keep_byte b (offset, token) = if b == 0 then (offset, token) else (offset + 1, set token offset b)

-- The `for` loop over the random buffer, from `token_offset` on.
fill_token : List ℕ → ℕ × List ℕ → ℕ × List ℕ
fill_token [] s = s
fill_token (b ∷ bytes) s = if ltb s.0 (handle_size - 1) then fill_token bytes (keep_byte b s) else s

-- What the `while (1)` loop ends with: the token, or the error of the device.
pub data Made : Type 0 where
  made : List ℕ → Made
  failed : ℤ → Made

-- The `while (1)` loop, for at most as many rounds as the fuel. `token` is `entry->token`, which
-- keeps what earlier rounds have written.
pub make_token : {W : Type 0} → Device W → (fuel : ℕ) → List ℕ → W → Run (Made × W)
unfolding fill_token
make_token dev zero token w = fault out_of_fuel
make_token dev (suc fuel) token w =
    let (rc, random_buf, w') = dev.get_rng_data (handle_size + 2) w in
    let (offset, token') = fill_token random_buf (0, token) in
    elim (is_zero rc) [
      | false ↦ ok (failed rc, w')
      | true ↦ elim (offset == handle_size - 1) [
        | true ↦ ok (made token', w')
        | false ↦ make_token dev fuel token' w'
      ]
    ]
