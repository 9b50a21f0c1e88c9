-- ===== src/Utils/Bits/Lengths.antt =====
-- `leading_zeros`, `bit_length` and `bit_length_inverse`.
use morello.Base.{
  ℕ, zero, suc, ◌-◌, ◌^◌, ◌≤◌, ◌<◌, ◌≡◌, refl, ap, inl, inr, leb, ==-false, lt→leb-false, leb→le,
  leb-false, Bool-cases, arith, two_pow_mono, two_pow_lt, two_pow_pos,
}
use native.Mathlib.Nat.{mod-eq_of_lt}
use morello.Utils.Bits.{leading_zeros, bit_length, bit_length_inverse}

-- The position of the leading digit of `n`.
abbrev pub HasTop : ℕ → ℕ → Type 0
HasTop n k = (2 ^ k ≤ n) × (n < 2 ^ suc k)

-- Every positive number below `2 ^ w` has one.
pub top_exists : (w n : ℕ) → 0 < n → n < 2 ^ w → (k : ℕ) × (k < w) × HasTop n k
top_exists zero n p h = absurd (omega arith)
top_exists (suc w) n p h = elim (Bool-cases (leb (2 ^ w) n)) [
  | inl big ↦ (w, omega arith, (leb→le _ _ big, h))
  | inr small ↦ let (k, l, t) = top_exists w n p (leb-false _ _ small) in (k, omega arith, t)
]

pub leading_zeros-top : (w n k : ℕ) → k < w → HasTop n k → leading_zeros w n ≡ w - 1 - k
unfolding leading_zeros
leading_zeros-top zero n k l t = absurd (omega arith)
leading_zeros-top (suc w) n k l t = elim (Bool-cases (leb (2 ^ w) n)) [
  | inl big ↦ rw big (elim (Bool-cases (leb w k)) [
    | inl e ↦ omega (arith, leb→le _ _ e)
    | inr e ↦ absurd (omega (arith, leb→le _ _ big, t, two_pow_mono (suc k) w (leb-false _ _ e)))
  ])
  | inr small ↦ rw small (elim (Bool-cases (leb w k)) [
    | inl e ↦ absurd (omega (arith, leb-false _ _ small, t, two_pow_mono w k (leb→le _ _ e)))
    | inr e ↦ omega (arith, leb-false _ _ e, leading_zeros-top w n k (leb-false _ _ e) t)
  ])
]

pub leading_zeros-zero : (w : ℕ) → leading_zeros w 0 ≡ w
unfolding leading_zeros
leading_zeros-zero zero = refl
leading_zeros-zero (suc w) =
    rw (lt→leb-false (2 ^ w) 0 (two_pow_pos w)) (ap suc (leading_zeros-zero w))

pub two_pow-HasTop : (k : ℕ) → HasTop (2 ^ k) k
two_pow-HasTop k = (omega arith, two_pow_lt k (suc k) (omega arith))

-- The leading digit has one position.
pub HasTop-unique : (n i j : ℕ) → HasTop n i → HasTop n j → i ≡ j
HasTop-unique n i j s t = elim (Bool-cases (leb i j)) [
  | inl p ↦ elim (Bool-cases (leb j i)) [
    | inl q ↦ omega (arith, leb→le _ _ p, leb→le _ _ q)
    | inr q ↦ absurd (omega (arith, two_pow_mono (suc i) j (leb-false _ _ q)))
  ]
  | inr p ↦ absurd (omega (arith, two_pow_mono (suc j) i (leb-false _ _ p)))
]

pub bit_length-top : (n k : ℕ) → k < 64 → HasTop n k → bit_length n ≡ suc k
unfolding bit_length
bit_length-top n k l t = omega (arith, leading_zeros-top 64 n k l t)

pub bit_length-zero : bit_length 0 ≡ 0
unfolding bit_length
bit_length-zero = omega (arith, leading_zeros-zero 64)

pub bit_length-two_pow : (k : ℕ) → k < 64 → bit_length (2 ^ k) ≡ suc k
bit_length-two_pow k l = bit_length-top (2 ^ k) k l (two_pow-HasTop k)

-- A word's length is at most 64.
pub bit_length-le : (n : ℕ) → bit_length n ≤ 64
unfolding bit_length
bit_length-le n = omega arith

pub bit_length_inverse-suc : (k : ℕ) → k < 64 → bit_length_inverse (suc k) ≡ 2 ^ k
unfolding bit_length_inverse
bit_length_inverse-suc k l =
    let e : suc k - 1 ≡ k = omega arith in
    rw (==-false (suc k) 0 (omega arith), e) (mod-eq_of_lt (two_pow_lt k 64 l))

pub bit_length_inverse-zero : bit_length_inverse 0 ≡ 0
unfolding bit_length_inverse
bit_length_inverse-zero = refl

-- What the binary-scaled entries can hold: zero, or a power of two in 64 bits.
pub data IsScaled (n : ℕ) : Type 0 where
  nothing : n ≡ 0 → IsScaled n
  power : (k : ℕ) → k < 64 → n ≡ 2 ^ k → IsScaled n

pub bit_length_inverse-IsScaled : (b : ℕ) → b ≤ 64 → IsScaled (bit_length_inverse b)
bit_length_inverse-IsScaled zero h = nothing bit_length_inverse-zero
bit_length_inverse-IsScaled (suc b) h =
    power b (omega arith) (bit_length_inverse-suc b (omega arith))

-- Every length up to 64 is the length of the number that `bit_length_inverse` gives for it.
pub bit_length-bit_length_inverse : (b : ℕ) → b ≤ 64 → bit_length (bit_length_inverse b) ≡ b
bit_length-bit_length_inverse zero h = rw bit_length_inverse-zero bit_length-zero
bit_length-bit_length_inverse (suc b) h =
    rw (bit_length_inverse-suc b (omega arith)) (bit_length-two_pow b (omega arith))

-- `bit_length_inverse` gives back every power of two below 2 ^ 64, and zero, from its length.
pub bit_length_inverse-bit_length : {n : ℕ} → IsScaled n → bit_length_inverse (bit_length n) ≡ n
bit_length_inverse-bit_length (nothing e) = rw (e, bit_length-zero) bit_length_inverse-zero
bit_length_inverse-bit_length (power k l e) =
    rw (e, bit_length-two_pow k l) (bit_length_inverse-suc k l)

-- On what the entries can hold, comparing the lengths compares the numbers.
pub bit_length_inverse_mono :
    (a b : ℕ) → a ≤ b → b ≤ 64 → bit_length_inverse a ≤ bit_length_inverse b
bit_length_inverse_mono zero b h l = omega (arith, bit_length_inverse-zero)
bit_length_inverse_mono (suc a) zero h l = absurd (omega arith)
bit_length_inverse_mono (suc a) (suc b) h l = omega (
  arith,
  bit_length_inverse-suc a (omega arith),
  bit_length_inverse-suc b (omega arith),
  two_pow_mono a b (omega arith),
)
