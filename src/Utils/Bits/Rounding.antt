-- ===== src/Utils/Bits/Rounding.antt =====
-- `is_power_of_two`, `prev_power_of_two`, `next_power_of_two` and `iter_powers_of_two`.
use Prim.Native.Nat.{bit_and}
use native.Mathlib.Nat.{mod-eq_of_lt}
use morello.Base.{
  ℕ, zero, suc, ◌+◌, ◌-◌, ◌*◌, ◌/◌, ◌%◌, ◌^◌, ◌≤◌, ◌<◌, ◌≡◌, refl, ap, ◌∙◌, inl, inr, leb, ◌==◌,
  ◌↔◌, true, false, lt→leb-false, leb→le, leb-false, Bool-cases, ==-false, arith, two_pow_suc,
  two_pow_mono, two_pow_lt, two_pow_add, mul_pred, div_of_parts, two_pow_pos,
}
use morello.Utils.Bits.{
  leading_zeros, is_power_of_two, prev_power_of_two, next_power_of_two, next_binary_power,
}
use morello.Utils.Bits.Digits.{bit_and_unfold, bit_or-one, bit_and_self, bit_and_leading}
use morello.Utils.Bits.Lengths.{IsScaled, two_pow-HasTop, HasTop, top_exists, leading_zeros-top}

-- The value of `prev_power_of_two` at a number with leading digit `k`.
pub prev_power_of_two-top : (n k : ℕ) → k < 64 → HasTop n k → prev_power_of_two n ≡ 2 ^ k
unfolding prev_power_of_two
prev_power_of_two-top n k l t =
    rw
      (
        bit_or-one n,
        leading_zeros-top 64 (n / 2 * 2 + 1) k l odd_top,
        idx,
        mod-eq_of_lt (two_pow_lt k 64 l),
      )
      (bit_and_leading k n t.0 t.1)
  where
    idx : 64 - 1 - (64 - 1 - k) ≡ k
    idx = omega arith

    odd_top : HasTop (n / 2 * 2 + 1) k
    odd_top =
        elim k as (λ k. HasTop n k → HasTop (n / 2 * 2 + 1) k) [
          | zero ↦ λ t. omega arith
          | suc j ↦ λ t. omega (arith, two_pow_suc j, two_pow_suc (suc j))
        ]
          t

pub prev_power_of_two-zero : prev_power_of_two 0 ≡ 0
unfolding prev_power_of_two leading_zeros
prev_power_of_two-zero = refl

-- For 0 < n < 2 ^ 64 the result is the greatest power of two that is not above `n`.
pub prev_power_of_two_greatest :
    (n : ℕ)
    → 0 < n
    → n < 2 ^ 64
    → (k : ℕ) × (prev_power_of_two n ≡ 2 ^ k)
      × (prev_power_of_two n ≤ n)
      × ((j : ℕ) → 2 ^ j ≤ n → 2 ^ j ≤ prev_power_of_two n)
prev_power_of_two_greatest n p h =
    let (k, l, t) = top_exists 64 n p h in
    let e : prev_power_of_two n ≡ 2 ^ k = prev_power_of_two-top n k l t in
    (
      k,
      e,
      rw e t.0,
      λ j g. rw e (elim (Bool-cases (leb j k)) [
        | inl le ↦ two_pow_mono j k (leb→le _ _ le)
        | inr gt ↦ absurd (omega (arith, two_pow_mono (suc k) j (leb-false _ _ gt)))
      ]),
    )

two_pow-bit_and_pred : (k : ℕ) → bit_and (2 ^ k) (2 ^ k - 1) ≡ 0
two_pow-bit_and_pred zero = refl
two_pow-bit_and_pred (suc k) =
    let e : 2 ^ suc k / 2 ≡ 2 ^ k = omega (arith, two_pow_suc k) in
    let d : (2 ^ suc k - 1) / 2 ≡ 2 ^ k - 1 = omega (arith, two_pow_suc k) in
    let u : _ = bit_and_unfold (2 ^ suc k) (2 ^ suc k - 1) in
    rw (u, e, d, two_pow-bit_and_pred k) (omega (arith, two_pow_suc k))

two_pow_of_bit_and_pred :
    (fuel n : ℕ) → n ≤ fuel → 0 < n → bit_and n (n - 1) ≡ 0 → (k : ℕ) × (n ≡ 2 ^ k)
two_pow_of_bit_and_pred zero n h p e = absurd (omega arith)
two_pow_of_bit_and_pred (suc fuel) n h p e = elim (Bool-cases (n % 2 == 0)) [
  | inl even ↦
      let half : n / 2 - 1 ≡ (n - 1) / 2 = ground arith in
      let pos : 0 < n / 2 = ground arith in
      let small : n / 2 ≤ fuel = omega arith in
      let e' : bit_and (n / 2) (n / 2 - 1) ≡ 0 =
        rw half (omega (arith, bit_and_unfold n (n - 1))) in
      let (k, q) = two_pow_of_bit_and_pred fuel (n / 2) small pos e' in
      (suc k, ground (arith, two_pow_suc k))
  | inr odd ↦
      let half : (n - 1) / 2 ≡ n / 2 = ground arith in
      let e' : bit_and (n / 2) ((n - 1) / 2) ≡ 0 = omega (arith, bit_and_unfold n (n - 1)) in
      let f' : bit_and (n / 2) (n / 2) ≡ 0 = rw half at e' in
      (0, ground (arith, bit_and_self (n / 2)))
]

-- The test holds of a number exactly when it is a power of two.
pub is_power_of_two_iff : (n : ℕ) → (is_power_of_two n ≡ true) ↔ ((k : ℕ) × (n ≡ 2 ^ k))
unfolding is_power_of_two
is_power_of_two_iff n = (to, from)
  where
    to : is_power_of_two n ≡ true → (k : ℕ) × (n ≡ 2 ^ k)
    to h = two_pow_of_bit_and_pred n n (omega arith) (ground arith) (ground arith)

    from : ((k : ℕ) × (n ≡ 2 ^ k)) → is_power_of_two n ≡ true
    from (k, e) =
        rw (e, ==-false (2 ^ k) 0 (omega (arith, two_pow_pos k)), two_pow-bit_and_pred k) refl

pub next_power_of_two-top :
    (n j : ℕ) → j < 63 → 2 ^ j < n → n ≤ 2 ^ suc j → next_power_of_two n ≡ 2 ^ suc j
unfolding next_power_of_two
next_power_of_two-top n j l below above =
    let big : leb n 1 ≡ false = lt→leb-false n 1 (omega (arith, two_pow_pos j)) in
    let top : HasTop (n - 1) j = (omega arith, omega arith) in
    let lz : leading_zeros 64 (n - 1) ≡ 63 - j =
      leading_zeros-top 64 (n - 1) j (omega arith) top ∙ omega arith in
    rw (big, lz, quotient) (mod-eq_of_lt (two_pow_lt (suc j) 64 (omega arith)))
  where
    split : 2 ^ 64 ≡ 2 ^ (63 - j) * 2 ^ suc j
    split =
        let e : 64 ≡ 63 - j + suc j = omega arith in
        ap (λ (t : ℕ). 2 ^ t) e ∙ two_pow_add (63 - j) (suc j)

    shape : 2 ^ 64 - 1 ≡ 2 ^ (63 - j) * (2 ^ suc j - 1) + (2 ^ (63 - j) - 1)
    shape = omega (
      arith,
      split,
      mul_pred (2 ^ (63 - j)) (2 ^ suc j) (two_pow_pos (suc j)),
      two_pow_pos (63 - j),
    )

    quotient : (2 ^ 64 - 1) / 2 ^ (63 - j) + 1 ≡ 2 ^ suc j
    quotient = omega (
      arith,
      ap (λ (t : ℕ). t / 2 ^ (63 - j)) shape,
      div_of_parts (2 ^ (63 - j)) (2 ^ suc j - 1) (2 ^ (63 - j) - 1)
          (omega (arith, two_pow_pos (63 - j))),
      two_pow_pos (suc j),
    )

-- For n ≤ 2 ^ 63 the result is the least power of two that is not below `n`.
pub next_power_of_two_least :
    (n : ℕ)
    → n ≤ 2 ^ 63
    → (k : ℕ) × (k < 64)
      × (next_power_of_two n ≡ 2 ^ k)
      × (n ≤ next_power_of_two n)
      × ((j : ℕ) → n ≤ 2 ^ j → next_power_of_two n ≤ 2 ^ j)
next_power_of_two_least n h = elim (Bool-cases (leb n 1)) [
  | inl small ↦
      let e : next_power_of_two n ≡ 2 ^ 0 = unfold next_power_of_two in rw small refl in
      (0, omega arith, e, rw e (leb→le _ _ small), λ j g. rw e (two_pow_pos j))
  | inr big ↦
      let (j, l, t) =
        top_exists 63 (n - 1) (omega (arith, leb-false _ _ big))
          (omega (arith, leb-false _ _ big)) in
      let e : next_power_of_two n ≡ 2 ^ suc j =
        next_power_of_two-top n j l (omega (arith, leb-false _ _ big)) (omega arith) in
      (
        suc j,
        omega arith,
        e,
        rw e (omega arith),
        λ i g. rw e (elim (Bool-cases (leb (suc j) i)) [
          | inl le ↦ two_pow_mono (suc j) i (leb→le _ _ le)
          | inr gt ↦
              absurd (
                omega
                  (arith, two_pow_mono i j (omega (arith, leb-false _ _ gt)), leb-false _ _ big))
        ]),
      )
]

-- Rounding down leaves what the binary-scaled entries can hold.
pub prev_power_of_two-IsScaled : {n : ℕ} → IsScaled n → prev_power_of_two n ≡ n
prev_power_of_two-IsScaled (IsScaled.nothing e) = rw e prev_power_of_two-zero
prev_power_of_two-IsScaled (IsScaled.power k l e) =
    rw e (prev_power_of_two-top (2 ^ k) k l (two_pow-HasTop k))

-- Rounding down any 64-bit number gives what an entry can hold.
pub IsScaled-prev_power_of_two : (n : ℕ) → n < 2 ^ 64 → IsScaled (prev_power_of_two n)
IsScaled-prev_power_of_two zero h = IsScaled.nothing prev_power_of_two-zero
IsScaled-prev_power_of_two (suc n) h =
    let (k, l, t) = top_exists 64 (suc n) (omega arith) h in
    IsScaled.power k l (prev_power_of_two-top (suc n) k l t)

pub prev_power_of_two-le : (n : ℕ) → n < 2 ^ 64 → prev_power_of_two n ≤ n
prev_power_of_two-le zero h = rw prev_power_of_two-zero (omega arith)
prev_power_of_two-le (suc n) h = (prev_power_of_two_greatest (suc n) (omega arith) h).2

pub next_power_of_two-two_pow : (k : ℕ) → k < 64 → next_power_of_two (2 ^ k) ≡ 2 ^ k
next_power_of_two-two_pow zero l = unfold next_power_of_two in refl
next_power_of_two-two_pow (suc j) l =
    next_power_of_two-top (2 ^ suc j) j (omega arith) (two_pow_lt j (suc j) (omega arith))
      (omega arith)

-- `next_binary_power` of an unrounded size up to 2 ^ 63 is what an entry can hold, and covers it.
pub next_binary_power_lem :
    (n : ℕ) → n ≤ 2 ^ 63 → IsScaled (next_binary_power n) × (n ≤ next_binary_power n)
unfolding next_binary_power
next_binary_power_lem n h = elim (Bool-cases (n == 0)) [
  | inl z ↦ rw z (IsScaled.nothing refl, ground arith)
  | inr s ↦ let (k, l, e, g, least) = next_power_of_two_least n h in rw s (IsScaled.power k l e, g)
]
