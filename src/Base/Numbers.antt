-- ===== src/Base/Numbers.antt =====
-- Machine words, and the arithmetic that the components share.
use Prim.Native.Nat.{ℕ, zero, suc, ◌+◌, ◌-◌, ◌*◌, ◌/◌, ◌%◌, ◌^◌, ◌≤◌, ◌<◌, min}
use mathlib.Core.Path.{◌≡◌, ◌∙◌}
use mathlib.Core.WellFounded.{Acc, WellFounded}
use native.Mathlib.Nat.{
  two-pow-succ, one-le-pow, mul-add-div, div-eq_of_lt, add-mul-mod_self_left, mod-eq_of_lt,
  div-add-mod, mod-lt, mul_comm, div-lt_iff_lt-mul, suc-le-suc_iff,
}
use native.Mathlib.Omega.{arith}

abbrev pub u8 : ℕ → ℕ
u8 n = n % 2 ^ 8

abbrev pub u32 : ℕ → ℕ
u32 n = n % 2 ^ 32

abbrev pub u64 : ℕ → ℕ
u64 n = n % 2 ^ 64

-- Rust's saturating operations on u32 and u8.
abbrev pub saturating_add32 : ℕ → ℕ → ℕ
saturating_add32 a b = min (a + b) (2 ^ 32 - 1)

abbrev pub saturating_mul32 : ℕ → ℕ → ℕ
saturating_mul32 a b = min (a * b) (2 ^ 32 - 1)

abbrev pub saturating_add8 : ℕ → ℕ → ℕ
saturating_add8 a b = min (a + b) (2 ^ 8 - 1)

below-Acc : (k n : ℕ) → n < k → Acc ◌<◌ n
below-Acc zero n h = absurd (omega arith)
below-Acc (suc k) n h = Acc.intro n (λ m lt. below-Acc k m (omega arith))

unfoldable pub lt_wf : WellFounded ◌<◌
unfolding below-Acc
lt_wf = record { apply = λ n. below-Acc (suc n) n (omega arith) }

pub two_pow_pos : (k : ℕ) → 1 ≤ 2 ^ k
two_pow_pos k = one-le-pow k 2 (omega arith)

pub two_pow_suc : (k : ℕ) → 2 ^ suc k ≡ 2 ^ k + 2 ^ k
two_pow_suc k = two-pow-succ k

-- Powers of two grow strictly.
pub two_pow_mono : (i j : ℕ) → i ≤ j → 2 ^ i ≤ 2 ^ j
two_pow_mono zero j h = two_pow_pos j
two_pow_mono (suc i) zero h = absurd (omega arith)
two_pow_mono (suc i) (suc j) h =
    omega (arith, two_pow_suc i, two_pow_suc j, two_pow_mono i j (omega arith))

pub two_pow_lt : (i j : ℕ) → i < j → 2 ^ i < 2 ^ j
two_pow_lt i j h = omega (arith, two_pow_mono (suc i) j h, two_pow_suc i, two_pow_pos i)

pub two_pow_add : (a b : ℕ) → 2 ^ (a + b) ≡ 2 ^ a * 2 ^ b
two_pow_add zero b = let e : zero + b ≡ b = omega arith in rw e (omega arith)
two_pow_add (suc a) b =
    let e : suc a + b ≡ suc (a + b) = omega arith in
    rw (e, two_pow_suc (a + b), two_pow_add a b, two_pow_suc a) (omega arith)

-- Division is pinned down by the multiple below and the remainder.
pub div_of_parts : (c q r : ℕ) → r < c → (c * q + r) / c ≡ q
div_of_parts c q r h = mul-add-div (omega arith) q r ∙ omega (arith, div-eq_of_lt h)

pub mul_pred : (c d : ℕ) → 0 < d → c * d ≡ c * (d - 1) + c
mul_pred c zero h = absurd (omega arith)
mul_pred c (suc d) h = let e : suc d - 1 ≡ d = omega arith in rw e (omega arith)

pub mod_of_parts : (c q r : ℕ) → r < c → (c * q + r) % c ≡ r
mod_of_parts c q r h =
    let e : c * q + r ≡ r + c * q = omega arith in
    rw (e, add-mul-mod_self_left r c q) (mod-eq_of_lt h)

-- The contract of `divrem`'s `DivCeil`: the least count of steps that covers `a`.
pub record IsDivCeil (div_ceil : ℕ → ℕ → ℕ) : Type 0 where
  pub covers : (a b : ℕ) → 0 < b → a ≤ div_ceil a b * b
  pub least : (a b q : ℕ) → 0 < b → a ≤ q * b → div_ceil a b ≤ q

-- The contract of `divrem`'s `DivRem`: quotient and remainder.
abbrev pub IsDivRem : (ℕ → ℕ → ℕ × ℕ) → Type 0
IsDivRem div_rem = (a b : ℕ) → 0 < b → div_rem a b ≡ (a / b, a % b)

-- The usual ceiling division meets the contract.
abbrev pub ceiling : ℕ → ℕ → ℕ
ceiling a b = (a + b - 1) / b

pub ceiling-IsDivCeil : IsDivCeil ceiling
ceiling-IsDivCeil = record { covers = ceiling_covers; least = ceiling_least }
  where
    ceiling_covers : (a b : ℕ) → 0 < b → a ≤ ceiling a b * b
    ceiling_covers a b h =
        omega (arith, div-add-mod (a + b - 1) b, mod-lt (a + b - 1) h, mul_comm b ((a + b - 1) / b))

    ceiling_least : (a b q : ℕ) → 0 < b → a ≤ q * b → ceiling a b ≤ q
    ceiling_least a b q h le = suc-le-suc_iff.0 ((div-lt_iff_lt-mul h).1 (omega arith))

-- A number that fits 32 bits is its own wrap-around.
pub u32_of_lt : (n : ℕ) → n < 2 ^ 32 → u32 n ≡ n
u32_of_lt n h = mod-eq_of_lt h

pub mul_mono : (c a b : ℕ) → a ≤ b → c * a ≤ c * b
mul_mono c a b h = grind arith
