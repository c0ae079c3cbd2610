-- ===== src/Hwrng/Fake.antt =====
-- hwcrypto/hwrng_srv_fake_provider.c: a counter in place of a random number device. `size_t` has 64
-- bits.
pub mod Laws
pub mod Tokens
use trusty_app_sample.Common.{List, [], pos, suc, zero, ℕ, ℤ, ◌%◌, ◌+◌, ◌^◌, ◌∷◌}

-- `hwrng_dev_init` returns `NO_ERROR`.
pub hwrng_dev_init : ℤ
hwrng_dev_init = pos 0

-- `counter++`, which may wrap.
abbrev pub next_counter : ℕ → ℕ
next_counter counter = (counter + 1) % 2 ^ 64

-- The loop that fills a buffer of `buf_len` bytes: the bytes, and the counter after it.
unfoldable pub fill_from : (buf_len counter : ℕ) → List ℕ × ℕ
fill_from zero counter = ([], counter)
fill_from (suc n) counter =
    let (bytes, counter') = fill_from n (next_counter counter) in
    ((counter % 256) ∷ bytes, counter')

-- The result, the bytes, and the new value of the static `counter`.
unfoldable pub hwrng_dev_get_rng_data : (buf_len counter : ℕ) → ℤ × List ℕ × ℕ
hwrng_dev_get_rng_data buf_len counter =
    let (bytes, counter') = fill_from buf_len counter in (pos 0, bytes, counter')
