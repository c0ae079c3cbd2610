-- ===== src/Spi/Client.antt =====
-- The transfer of spi/swspi-test/swspi-test.c: what the test sends, and what it expects to receive.
-- The SPI client library is a parameter.
pub mod Expected
mod Tests
use trusty_app_sample.Common.{
  Bool, List, [], bit_or, bit_xor, false, true, ℕ, ℤ, ◌%◌, ◌&&◌, ◌*◌, ◌/◌, ◌==◌, ◌^◌, ◌∷◌,
}
use trusty_app_sample.Spi.Driver.{fill_range, load}

-- The calls on a `struct spi_dev`, the addresses of the buffers that a transfer is given, and the
-- memory that the test shares with the device.
pub record SpiDev (W : Type 0) : Type 0 where
  pub add_set_clk : W → ℤ × W
  pub add_cs_assert : W → ℤ × W
  pub add_data_xfer : ℕ → W → ℤ × W
  pub tx : ℕ
  pub rx : ℕ
  pub add_cs_deassert : W → ℤ × W
  pub exec_cmds : W → ℤ × W
  pub memory : W → ℕ → ℕ
  pub set_memory : (ℕ → ℕ) → W → W

-- The digest of the test: a rotation to the right by one bit, and an exclusive or.
unfoldable pub digest_over : ℕ → List ℕ → ℕ
digest_over d [] = d
digest_over d (b ∷ buf) = digest_over (bit_xor (bit_or (d / 2) ((d % 2) * 2 ^ 7)) b) buf

-- The memory after rand_buf at an address.
unfoldable pub rand_buf : (ℕ → ℕ → ℕ) → (buf sz seed : ℕ) → (ℕ → ℕ) → ℕ → ℕ
rand_buf rand buf sz seed memory = fill_range buf sz (λ i. rand seed i % 0xff) memory

-- `memcmp(...) == 0`
unfoldable pub memcmp_eq : List ℕ → List ℕ → Bool
memcmp_eq [] [] = true
memcmp_eq [] (y ∷ ys) = false
memcmp_eq (x ∷ xs) [] = false
memcmp_eq (x ∷ xs) (y ∷ ys) = x == y && memcmp_eq xs ys

module _ {W : Type 0} (rand : ℕ → ℕ → ℕ) (dev : SpiDev W) where
  -- `result`, from what is sent.
  unfoldable pub result_of : (loopback : Bool) (len : ℕ) → (ℕ → ℕ) → List ℕ
  result_of true len memory = load memory dev.tx len
  result_of false len memory =
      load (rand_buf rand 0 len (digest_over 0 (load memory dev.tx len)) (λ _. 0)) 0 len

  -- Whether `result` and the received bytes are equal. A result of a call that is not 0 is only
  -- reported.
  unfoldable pub exec_xfer : (loopback : Bool) (len : ℕ) → W → Bool × W
  exec_xfer loopback len w =
      let added =
        (dev.add_cs_deassert
          (dev.add_data_xfer len (dev.add_cs_assert (dev.add_set_clk w).1).1).1).1 in
      let filled = rand_buf rand dev.tx len (len % 0xff) (dev.memory added) in
      let after = (dev.exec_cmds (dev.set_memory filled added)).1 in
      (memcmp_eq (result_of loopback len filled) (load (dev.memory after) dev.rx len), after)
