-- ===== src/Common/Memory.antt =====
-- Single accesses to a buffer, which stop the program outside it, and how a loop walks one.
use Prim.Native.Nat.{ℕ}
use mathlib.Core.Path.{◌≡◌, refl, ap}
use mathlib.Core.List.{List, [], ◌∷◌, ◌++◌}
use mathlib.Core.Option.{none, some}
use native.Mathlib.Omega.{arith}
use trusty_app_sample.Common.Tests.{ltb, if◌then◌else◌}
use trusty_app_sample.Common.Lists.{length, get_elem?, set, length-append}
use trusty_app_sample.Common.Faults.{Run, ok, fault, out_of_bounds}

module _ {ℓ} {A : Type ℓ} where
  -- `buf[i]`
  unfoldable pub read : List A → ℕ → Run A
  read buf i = elim (get_elem? buf i) [ none ↦ fault out_of_bounds | some b ↦ ok b ]

  -- `buf[i] = v`
  unfoldable pub write : List A → ℕ → A → Run (List A)
  write buf i v = if ltb i (length buf) then ok (set buf i v) else fault out_of_bounds

  pub read-append : (xs : List A) (y : A) (ys : List A) → read (xs ++ y ∷ ys) (length xs) ≡ ok y
  unfolding read
  read-append [] y ys = refl
  read-append (x ∷ xs) y ys = read-append xs y ys

  set-append :
      (xs : List A) (y v : A) (ys : List A) → set (xs ++ y ∷ ys) (length xs) v ≡ xs ++ v ∷ ys
  set-append [] y v ys = refl
  set-append (x ∷ xs) y v ys = ap (◌∷◌ x) (set-append xs y v ys)

  pub write-append :
      (xs : List A) (y v : A) (ys : List A) → write (xs ++ y ∷ ys) (length xs) v ≡ ok (xs ++ v ∷ ys)
  unfolding write
  write-append xs y v ys = ground (arith, length-append xs (y ∷ ys), set-append xs y v ys)
