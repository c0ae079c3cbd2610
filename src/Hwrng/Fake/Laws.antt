-- ===== src/Hwrng/Fake/Laws.antt =====
-- What the counter delivers.
use trusty_app_sample.Common.{
  ap, arith, get_elem?, length, refl, some, suc, zero, ℕ, ℕ_discrete, ◌%◌, ◌+◌, ◌<◌, ◌∙◌, ◌≡◌, ◌≤◌,
}
use trusty_app_sample.Hwrng.Fake.{fill_from, next_counter}
use trusty_app_sample.Hwkey.Token.Laws.{nonzero_bytes}

-- A buffer is filled whole.
pub length-fill_from : (n counter : ℕ) → length (fill_from n counter).0 ≡ n
unfolding fill_from
length-fill_from zero c = refl
length-fill_from (suc n) c = ap suc (length-fill_from n (next_counter c))

-- The byte at each place of the buffer is the counter plus that place, in 8 bits, also where the
-- 64-bit counter wraps.
pub fill_from-byte : (n i c : ℕ) → i < n → get_elem? (fill_from n c).0 i ≡ some ((c + i) % 256)
unfolding fill_from
fill_from-byte zero i c h = absurd (omega arith)
fill_from-byte (suc n) zero c h = ap some (omega arith)
fill_from-byte (suc n) (suc i) c h =
    fill_from-byte n i (next_counter c) (omega arith) ∙ ap some (omega arith)

-- Until the counter comes to 0 again, no byte is 0.
run-nonzero :
    (n c : ℕ) → 0 < c % 256 → c % 256 + n ≤ 256 → length (nonzero_bytes (fill_from n c).0) ≡ n
unfolding fill_from nonzero_bytes
run-nonzero zero c p h = refl
run-nonzero (suc zero) c p h = ground arith
run-nonzero (suc (suc n)) c p h =
    let next : next_counter c % 256 ≡ c % 256 + 1 = omega arith in
    let ih = run-nonzero (suc n) (next_counter c) (omega arith) (omega arith) in ground (arith, ih)

-- Of fewer than 256 bytes in a row at most one is 0.
pub fill_from-nonzero : (n c : ℕ) → n ≤ 255 → n ≤ length (nonzero_bytes (fill_from n c).0) + 1
unfolding fill_from nonzero_bytes
fill_from-nonzero zero c h = omega arith
fill_from-nonzero (suc n) c h = elim (ℕ_discrete (c % 256) 0) [
  | yes z ↦
      let one : next_counter c % 256 ≡ 1 = omega arith in
      ground (arith, run-nonzero n (next_counter c) (omega arith) (omega arith))
  | no nz ↦ ground (arith, fill_from-nonzero n (next_counter c) (omega arith))
]
