-- ===== src/Common/Faults.antt =====
-- A C function that can stop the program: a failed `assert`, an access outside a buffer, a call
-- through a null function pointer, or a use of memory that is freed.
use mathlib.Core.Path.{◌≡◌, refl}
use mathlib.Core.Bool.{Bool, true, false}

pub data Fault : Type 0 where
  assertion out_of_bounds null_pointer null_call use_after_free aborted out_of_fuel : Fault

pub data Run {ℓ} (A : Type ℓ) : Type ℓ where
  ok : A → Run A
  fault : Fault → Run A

infixl 5 ◌>>=◌ ◌>>◌
abbrev pub ◌>>=◌ {ℓ κ} : {A : Type ℓ} {B : Type κ} → Run A → (A → Run B) → Run B
fault why >>= next = fault why
ok value >>= next = next value

abbrev pub ◌>>◌ {ℓ} : {B : Type ℓ} → Run (Unit {0}) → Run B → Run B
m >> k = m >>= λ _. k

-- `assert(b)`
abbrev pub assert : Bool → Run (Unit {0})
assert true = ok tt
assert false = fault assertion

-- The run ends with a value that satisfies the predicate.
abbrev pub Returns {ℓ} : {A : Type ℓ} → (A → Type 0) → Run A → Type 0
Returns P (ok a) = P a
Returns P (fault e) = ⊥

-- The run does not stop the program.
abbrev pub IsSafe {ℓ} : {A : Type ℓ} → Run A → Type 0
IsSafe = Returns (λ _. Unit)

-- If the run ends, its value satisfies the predicate.
abbrev pub Ensures {ℓ} : {A : Type ℓ} → (A → Type 0) → Run A → Type 0
Ensures P (ok a) = P a
Ensures P (fault e) = Unit

pub Returns-bind {ℓ κ} :
    {A : Type ℓ} {B : Type κ} (P : A → Type 0) (Q : B → Type 0) (m : Run A) (f : A → Run B)
    → Returns P m
    → ((a : A) → m ≡ ok a → P a → Returns Q (f a))
    → Returns Q (m >>= f)
Returns-bind P Q (ok a) f h k = k a refl h
Returns-bind P Q (fault e) f h k = absurd h

pub Returns-and {ℓ} :
    {A : Type ℓ} (P Q : A → Type 0) (m : Run A)
    → Returns P m
    → Ensures Q m
    → Returns (λ a. P a × Q a) m
Returns-and P Q (ok a) h k = (h, k)
Returns-and P Q (fault e) h k = absurd h

pub Returns-map {ℓ} :
    {A : Type ℓ} (P Q : A → Type 0) (m : Run A) → Returns P m → ((a : A) → P a → Q a) → Returns Q m
Returns-map P Q (ok a) h k = k a h
Returns-map P Q (fault e) h k = h

pub Ensures-bind {ℓ κ} :
    {A : Type ℓ} {B : Type κ} (Q : B → Type 0) (m : Run A) (f : A → Run B)
    → ((a : A) → m ≡ ok a → Ensures Q (f a))
    → Ensures Q (m >>= f)
Ensures-bind Q (ok a) f k = k a refl
Ensures-bind Q (fault e) f k = tt
