-- ===== src/Keybox/Unwrap/Spec.antt =====
-- The wrapping format that keybox.c undoes: masked bytes, then the exclusive or of those bytes.
use trusty_app_sample.Common.{
  ℕ, zero, suc, ◌≡◌, refl, sym, ap, ◌∙◌, bit_xor, List, [], ◌∷◌, ◌++◌, map, some, set, get_elem?,
}
use trusty_app_sample.Common.Xor.{
  bit_xor_assoc, bit_xor_comm, bit_xor_cancel, bit_xor_cancel_left, zero-bit_xor, bit_xor-zero,
}

unfoldable pub xor_all : List ℕ → ℕ
xor_all [] = 0
xor_all (x ∷ xs) = bit_xor x (xor_all xs)

abbrev pub mask : ℕ → ℕ
mask b = bit_xor b 0x42

-- What the peer of `keybox_unwrap` sends for a plaintext.
unfoldable pub wrap : List ℕ → List ℕ
wrap plain = map mask plain ++ xor_all (map mask plain) ∷ []

pub map-mask-mask : (xs : List ℕ) → map mask (map mask xs) ≡ xs
map-mask-mask [] = refl
map-mask-mask (x ∷ xs) = rw (bit_xor_cancel x 0x42) (ap (◌∷◌ x) (map-mask-mask xs))

pub xor_all-append : (xs ys : List ℕ) → xor_all (xs ++ ys) ≡ bit_xor (xor_all xs) (xor_all ys)
unfolding xor_all
xor_all-append [] ys = sym (zero-bit_xor (xor_all ys))
xor_all-append (x ∷ xs) ys =
    ap (bit_xor x) (xor_all-append xs ys) ∙ sym (bit_xor_assoc x (xor_all xs) (xor_all ys))

pub xor_all-singleton : (x : ℕ) → xor_all (x ∷ []) ≡ x
unfolding xor_all
xor_all-singleton x = bit_xor-zero x

-- A message whose bytes are changed at one place has another exclusive or.
pub xor_all-set :
    (xs : List ℕ) (i x v : ℕ) → get_elem? xs i ≡ some x → xor_all (set xs i v) ≡ xor_all xs → v ≡ x
unfolding xor_all
xor_all-set [] i x v h e = cc
xor_all-set (y ∷ xs) zero x v h e = bit_xor_cancel_left (xor_all xs) v x (
    bit_xor_comm (xor_all xs) v
    ∙ e
    ∙ ap (λ t. bit_xor t (xor_all xs)) (cc)
    ∙ bit_xor_comm x (xor_all xs))
xor_all-set (y ∷ xs) (suc i) x v h e =
    xor_all-set xs i x v h (bit_xor_cancel_left y (xor_all (set xs i v)) (xor_all xs) e)
