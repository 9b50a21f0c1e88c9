-- ===== src/Memory/Subtract.antt =====
-- morello/src/memorylimits.rs: `checked_sub_snap_down`.
use morello.Base.{
  ℕ, suc, ◌+◌, ◌-◌, ◌^◌, ◌≤◌, ◌<◌, ◌≡◌, refl, ap, subst, ◌↔◌, inl, inr, none, some, List, [], ◌∷◌,
  length, some_eq, ltb, ltb→lt, ltb-false, Bool-cases, Option-cases, arith, two_pow_mono,
  two_pow_lt,
}
use morello.Utils.Bits.{bit_length, bit_length_inverse, prev_power_of_two}
use morello.Utils.Bits.Lengths.{
  IsScaled, bit_length_inverse-IsScaled, bit_length_inverse-bit_length, bit_length-le,
}
use morello.Utils.Bits.Rounding.{
  IsScaled-prev_power_of_two, prev_power_of_two-le, prev_power_of_two_greatest,
}
use morello.Memory.{MemVec, checked_sub_snap_down}
use morello.Memory.Entries.{AreLengths}

-- What one entry becomes when `r` bytes are taken from it.
pub record IsTaken (b r b' : ℕ) : Type 0 where
  pub covered : r ≤ bit_length_inverse b
  pub within : bit_length_inverse b' + r ≤ bit_length_inverse b
  pub greatest : (k : ℕ) → 2 ^ k ≤ bit_length_inverse b - r → 2 ^ k ≤ bit_length_inverse b'
  pub bounded : b' ≤ 64

amount-lt : (b : ℕ) → b ≤ 64 → bit_length_inverse b < 2 ^ 64
amount-lt b h = elim (bit_length_inverse-IsScaled b h) [
  | IsScaled.nothing e ↦ rw e (omega arith)
  | IsScaled.power k l e ↦ rw e (two_pow_lt k 64 l)
]

IsTaken-entry :
    (b r : ℕ)
    → b ≤ 64
    → r ≤ bit_length_inverse b
    → IsTaken b r (bit_length (prev_power_of_two (bit_length_inverse b - r)))
IsTaken-entry b r h c =
    let left = bit_length_inverse b - r in
    let left_lt : left < 2 ^ 64 = omega (arith, amount-lt b h) in
    let back : bit_length_inverse (bit_length (prev_power_of_two left)) ≡ prev_power_of_two left =
      bit_length_inverse-bit_length (IsScaled-prev_power_of_two left left_lt) in
    record {
      covered = c;
      within = omega (arith, back, prev_power_of_two-le left left_lt);
      greatest = λ k g. rw back (elim (Bool-cases (ltb 0 left)) [
        | inl p ↦ (prev_power_of_two_greatest left (ltb→lt _ _ p) left_lt).3 k g
        | inr p ↦ absurd (omega (arith, ltb-false _ _ p, two_pow_mono 0 k (omega arith)))
      ]);
      bounded = bit_length-le (prev_power_of_two left);
    }

-- Entry by entry: what is left of `v` after `rhs` is taken.
pub data AreTaken : MemVec → List ℕ → MemVec → Type 0 where
  none_left : {rhs : List ℕ} → AreTaken [] rhs []
  not_asked : {v : MemVec} → AreTaken v [] v
  entry :
      {b r b' : ℕ} {v w : MemVec} {rhs : List ℕ}
      → IsTaken b r b'
      → AreTaken v rhs w
      → AreTaken (b ∷ v) (r ∷ rhs) (b' ∷ w)

-- A subtraction that succeeds takes from each entry what was asked: it was covered, and what is
-- left is the greatest power of two (or zero) that fits in the rest.
pub checked_sub_snap_down-AreTaken :
    (v : MemVec) (rhs : List ℕ) {w : MemVec}
    → AreLengths v
    → checked_sub_snap_down v rhs ≡ some w
    → AreTaken v rhs w
unfolding checked_sub_snap_down
checked_sub_snap_down-AreTaken [] rhs a h = subst (AreTaken [] rhs) (some_eq h) none_left
checked_sub_snap_down-AreTaken (b ∷ v) [] a h = subst (AreTaken (b ∷ v) []) (some_eq h) not_asked
checked_sub_snap_down-AreTaken (b ∷ v) (r ∷ rhs) a h =
    elim (Bool-cases (ltb (bit_length_inverse b) r)) [
      | inl short ↦ absurd (ground arith)
      | inr enough ↦ elim (Option-cases (checked_sub_snap_down v rhs)) [
        | inl out ↦ absurd (ground arith)
        | inr (w', rest) ↦ subst (AreTaken (b ∷ v) (r ∷ rhs)) (ground arith) (
            entry (IsTaken-entry b r a.0 (ltb-false _ _ enough))
              (checked_sub_snap_down-AreTaken v rhs a.1 rest))
      ]
    ]

-- What is left are lengths of words again, one for each entry.
pub AreTaken-AreLengths :
    {v w : MemVec} {rhs : List ℕ}
    → AreTaken v rhs w
    → AreLengths v
    → AreLengths w × (length w ≡ length v)
AreTaken-AreLengths none_left a = (tt, refl)
AreTaken-AreLengths not_asked a = (a, refl)
AreTaken-AreLengths (entry t rest) a =
    let (l, e) = AreTaken-AreLengths rest a.1 in ((t.bounded, l), ap suc e)

-- An entry that is smaller than what is asked of it.
pub data HasShort : MemVec → List ℕ → Type 0 where
  here :
      {b r : ℕ} {v : MemVec} {rhs : List ℕ} → bit_length_inverse b < r → HasShort (b ∷ v) (r ∷ rhs)
  later : {b r : ℕ} {v : MemVec} {rhs : List ℕ} → HasShort v rhs → HasShort (b ∷ v) (r ∷ rhs)

short_of_none : (v : MemVec) (rhs : List ℕ) → checked_sub_snap_down v rhs ≡ none → HasShort v rhs
unfolding checked_sub_snap_down
short_of_none [] rhs h = absurd (cc)
short_of_none (b ∷ v) [] h = absurd (cc)
short_of_none (b ∷ v) (r ∷ rhs) h = elim (Bool-cases (ltb (bit_length_inverse b) r)) [
  | inl short ↦ here (ltb→lt _ _ short)
  | inr enough ↦ later (short_of_none v rhs (ground arith))
]

none_of_short : {v : MemVec} {rhs : List ℕ} → HasShort v rhs → checked_sub_snap_down v rhs ≡ none
unfolding checked_sub_snap_down
none_of_short (here h) = ground arith
none_of_short (later h) = ground (arith, none_of_short h)

-- The subtraction fails exactly when some entry is smaller than what is asked of it.
pub checked_sub_snap_down-none_iff :
    (v : MemVec) (rhs : List ℕ) → (checked_sub_snap_down v rhs ≡ none) ↔ HasShort v rhs
checked_sub_snap_down-none_iff v rhs = (short_of_none v rhs, none_of_short)
