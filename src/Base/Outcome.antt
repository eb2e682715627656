-- ===== src/Base/Outcome.antt =====
-- What a call of the C++ code ends in. `ASSERT` and `FATAL` of common/macros.h end the process;
-- `std::array::at` throws out of range, which ends the process in a `noexcept` function; reading
-- through a null pointer is undefined.
use mathlib.Core.Bool.{Bool, true, false}
use mathlib.Core.Option.{Option, none, some}
use mathlib.Core.Path.{◌≡◌, refl}
use Prim.Native.Nat.{ℕ}

pub data Fault : Type 0 where
  fatal out_of_range null_deref overflow out_of_fuel : Fault

pub data Outcome {ℓ} (A : Type ℓ) : Type ℓ where
  ok : A → Outcome A
  fault : Fault → Outcome A

module _ {ℓ κ} {A : Type ℓ} {B : Type κ} where
  abbrev pub and_then : Outcome A → (A → Outcome B) → Outcome B
  and_then (ok a) k = k a
  and_then (fault e) k = fault e

-- Inversion of a chain that has ended.
pub and_then-eq-ok {ℓ κ} :
    {A : Type ℓ} {B : Type κ} (m : Outcome A) (k : A → Outcome B) {b : B}
    → and_then m k ≡ ok b
    → (a : A) × (m ≡ ok a) × (k a ≡ ok b)
and_then-eq-ok (ok a) k h = (a, refl, h)
and_then-eq-ok (fault e) k h = cc

-- A method: it reads and updates the state of its object.
abbrev pub M : Type 0 → Type 0 → Type 0
M S A = S → Outcome (A × S)

abbrev pub pure : {S A : Type 0} → A → M S A
pure a s = ok (a, s)

abbrev pub abort : {S A : Type 0} → Fault → M S A
abort e s = fault e

infixl 5 ◌>>=◌ ◌>>◌
abbrev pub ◌>>=◌ : {S A B : Type 0} → M S A → (A → M S B) → M S B
◌>>=◌ m k s = and_then (m s) λ (a, t). k a t

abbrev pub ◌>>◌ : {S A B : Type 0} → M S A → M S B → M S B
◌>>◌ m k s = and_then (m s) λ (a, t). k t

abbrev pub get : {S : Type 0} → M S S
get s = ok (s, s)

abbrev pub put : {S : Type 0} → S → M S (Unit {0})
put t s = ok (tt, t)

-- `ASSERT(cond, msg)`
abbrev pub assert : {S : Type 0} → Bool → M S (Unit {0})
assert true s = ok (tt, s)
assert false s = fault fatal

-- The address that a pointer holds; to use the null pointer is a fault.
abbrev pub deref : {S : Type 0} → Option ℕ → M S ℕ
deref none s = fault null_deref
deref (some i) s = ok (i, s)
