-- ===== src/Common/Xor.antt =====
-- Exclusive or on the native numbers: the laws of the operation, from its binary digits.
use Prim.Native.Nat.{
  ℕ, zero, suc, ◌+◌, ◌*◌, ◌/◌, ◌%◌, ◌^◌, ◌≤◌, ◌<◌, digits, differ, bit_xor, bit_xor-bitwise,
}
use mathlib.Core.Path.{◌≡◌, refl, sym, ◌∙◌, ap}
use native.Mathlib.Nat.{pow-suc}
use native.Mathlib.Omega.{arith}

differ-bits : (x y : ℕ) → x < 2 → y < 2 → differ x y ≡ (x + y) % 2
differ-bits zero y h k = omega arith
differ-bits (suc zero) zero h k = refl
differ-bits (suc zero) (suc zero) h k = refl
differ-bits (suc zero) (suc (suc y)) h k = absurd (omega arith)
differ-bits (suc (suc x)) y h k = absurd (omega arith)

-- The digits of the definition do not depend on the count of rounds, if that is large enough.
abbrev xor_rounds : ℕ → ℕ → ℕ → ℕ
xor_rounds = digits (λ r. r) differ

xor_rounds-eq : (r s a b : ℕ) → a ≤ r → a ≤ s → xor_rounds r a b ≡ xor_rounds s a b
xor_rounds-eq zero zero a b p q = refl
xor_rounds-eq zero (suc s) zero b p q = refl
xor_rounds-eq zero (suc s) (suc a) b p q = absurd (omega arith)
xor_rounds-eq (suc r) zero zero b p q = refl
xor_rounds-eq (suc r) zero (suc a) b p q = absurd (omega arith)
xor_rounds-eq (suc r) (suc s) zero b p q = refl
xor_rounds-eq (suc r) (suc s) (suc a) b p q =
    omega (arith, xor_rounds-eq r s (suc a / 2) (b / 2) (omega arith) (omega arith))

-- One binary digit at a time.
pub bit_xor_step : (a b : ℕ) → bit_xor a b ≡ bit_xor (a / 2) (b / 2) * 2 + (a % 2 + b % 2) % 2
bit_xor_step zero b = omega (arith, bit_xor-bitwise 0 b, bit_xor-bitwise 0 (b / 2))
bit_xor_step (suc a) b = omega (
  arith,
  bit_xor-bitwise (suc a) b,
  bit_xor-bitwise (suc a / 2) (b / 2),
  xor_rounds-eq a (suc a / 2) (suc a / 2) (b / 2) (omega arith) (omega arith),
  differ-bits (suc a % 2) (b % 2) (omega arith) (omega arith),
)

bit_xor-half : (a b : ℕ) → bit_xor a b / 2 ≡ bit_xor (a / 2) (b / 2)
bit_xor-half a b = omega (arith, bit_xor_step a b)

bit_xor-parity : (a b : ℕ) → bit_xor a b % 2 ≡ (a % 2 + b % 2) % 2
bit_xor-parity a b = omega (arith, bit_xor_step a b)

-- Two numbers are equal if their halves and their parities are.
eq_of_halves : (x y : ℕ) → x / 2 ≡ y / 2 → x % 2 ≡ y % 2 → x ≡ y
eq_of_halves x y h p = omega arith

assoc_upto : (n a b c : ℕ) → a + b + c ≤ n → bit_xor (bit_xor a b) c ≡ bit_xor a (bit_xor b c)
assoc_upto zero a b c h =
    let ea : a ≡ 0 = omega arith in
    let eb : b ≡ 0 = omega arith in let ec : c ≡ 0 = omega arith in rw (ea, eb, ec)
assoc_upto (suc n) a b c h =
    eq_of_halves _ _
      (rw
        (
          bit_xor-half (bit_xor a b) c,
          bit_xor-half a (bit_xor b c),
          bit_xor-half a b,
          bit_xor-half b c,
        )
        (assoc_upto n (a / 2) (b / 2) (c / 2) (omega arith)))
      (omega (
        arith,
        bit_xor-parity (bit_xor a b) c,
        bit_xor-parity a (bit_xor b c),
        bit_xor-parity a b,
        bit_xor-parity b c,
      ))

pub bit_xor_assoc : (a b c : ℕ) → bit_xor (bit_xor a b) c ≡ bit_xor a (bit_xor b c)
bit_xor_assoc a b c = assoc_upto (a + b + c) a b c (omega arith)

comm_upto : (n a b : ℕ) → a + b ≤ n → bit_xor a b ≡ bit_xor b a
comm_upto zero a b h = let ea : a ≡ 0 = omega arith in let eb : b ≡ 0 = omega arith in rw (ea, eb)
comm_upto (suc n) a b h =
    omega (arith, bit_xor_step a b, bit_xor_step b a, comm_upto n (a / 2) (b / 2) (omega arith))

pub bit_xor_comm : (a b : ℕ) → bit_xor a b ≡ bit_xor b a
bit_xor_comm a b = comm_upto (a + b) a b (omega arith)

self_upto : (n a : ℕ) → a ≤ n → bit_xor a a ≡ 0
self_upto zero a h = let ea : a ≡ 0 = omega arith in rw ea
self_upto (suc n) a h = omega (arith, bit_xor_step a a, self_upto n (a / 2) (omega arith))

pub bit_xor_self : (a : ℕ) → bit_xor a a ≡ 0
bit_xor_self a = self_upto a a (omega arith)

pub zero-bit_xor : (a : ℕ) → bit_xor 0 a ≡ a
zero-bit_xor a = bit_xor-bitwise 0 a

pub bit_xor-zero : (a : ℕ) → bit_xor a 0 ≡ a
bit_xor-zero a = bit_xor_comm a 0 ∙ zero-bit_xor a

-- The same operand twice cancels.
pub bit_xor_cancel : (a b : ℕ) → bit_xor (bit_xor a b) b ≡ a
bit_xor_cancel a b = rw (bit_xor_assoc a b b, bit_xor_self b) (bit_xor-zero a)

pub bit_xor_cancel_left : (a b c : ℕ) → bit_xor a b ≡ bit_xor a c → b ≡ c
bit_xor_cancel_left a b c h =
    sym (bit_xor_cancel b a)
    ∙ ap (λ t. bit_xor t a) (bit_xor_comm b a ∙ h ∙ bit_xor_comm a c)
    ∙ bit_xor_cancel c a

-- The operation does not leave the width of its operands.
pub bit_xor-lt : (k a b : ℕ) → a < 2 ^ k → b < 2 ^ k → bit_xor a b < 2 ^ k
bit_xor-lt zero a b h g =
    let ea : a ≡ 0 = omega arith in let eb : b ≡ 0 = omega arith in rw (ea, eb) (omega arith)
bit_xor-lt (suc k) a b h g = omega (
  arith,
  pow-suc 2 k,
  bit_xor_step a b,
  bit_xor-lt k (a / 2) (b / 2) (omega (arith, pow-suc 2 k)) (omega (arith, pow-suc 2 k)),
)
