-- ===== src/Base/Results.antt =====
-- The outcome of an operation that may panic.
use mathlib.Core.Path.{◌≡◌, refl}
use mathlib.Core.Bool.{Bool, true, false}

-- `panic` stands for a failed assertion, a failed `unwrap` and an index out of range.
pub data Outcome {ℓ} (A : Type ℓ) : Type ℓ where
  done : A → Outcome A
  panic : Outcome A

infixl 5 ◌>>=◌ ◌>>◌
abbrev pub ◌>>=◌ {ℓ κ} : {A : Type ℓ} {B : Type κ} → Outcome A → (A → Outcome B) → Outcome B
done a >>= f = f a
panic >>= f = panic

abbrev pub ◌>>◌ {ℓ} : {B : Type ℓ} → Outcome (Unit {0}) → Outcome B → Outcome B
m >> k = m >>= λ _. k

abbrev pub assert : Bool → Outcome (Unit {0})
assert true = done tt
assert false = panic

pub >>=-eq-done {ℓ κ} :
    {A : Type ℓ} {B : Type κ} (m : Outcome A) (f : A → Outcome B) {b : B}
    → (m >>= f) ≡ done b
    → (a : A) × (m ≡ done a) × (f a ≡ done b)
>>=-eq-done (done a) f h = (a, refl, h)
>>=-eq-done panic f h = cc

pub assert-done {ℓ} :
    {A : Type ℓ} (b : Bool) (k : Outcome A) {r : A}
    → (assert b >> k) ≡ done r
    → (b ≡ true) × (k ≡ done r)
assert-done true k h = (refl, h)
assert-done false k h = cc

pub done_eq {ℓ} : {A : Type ℓ} {x y : A} → done x ≡ done y → x ≡ y
done_eq h = cc
