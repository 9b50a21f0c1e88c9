-- ===== src/Memory/Entries.antt =====
-- morello/src/memorylimits.rs and `snap_memvec_up`: vectors whose entries are lengths of words.
-- Rounding such a vector, down by `discretize` or up by `snap_memvec_up`, leaves it as it is.
use morello.Base.{
  ℕ, zero, suc, ◌+◌, ◌≤◌, ◌<◌, ◌^◌, ◌≡◌, refl, ap₂, sym, true, Bool, if◌then◌else◌, ◌==◌, some,
  List, [], ◌∷◌, map, All, length, get_elem?, set, get_elem?-in, set_self, All-get_elem?, done, ltb,
  ==-false, ==-true, arith, two_pow_pos,
}
use morello.Utils.Bits.{bit_length, bit_length_inverse, prev_power_of_two, next_power_of_two}
use morello.Utils.Bits.Lengths.{
  IsScaled, bit_length_inverse-IsScaled, bit_length-bit_length_inverse, bit_length-le,
  bit_length_inverse-bit_length,
}
use morello.Utils.Bits.Rounding.{prev_power_of_two-IsScaled, next_power_of_two-two_pow}
use morello.Memory.{
  MemVec, standard, new, get_unscaled, set_unscaled, discretize_loop, discretize, snap_memvec_up,
}

-- Each entry is the length of a 64-bit word.
abbrev pub AreLengths : MemVec → Type 0
AreLengths v = All (λ b. b ≤ 64) v

pub new-AreLengths : (contents : List ℕ) → AreLengths (new contents)
unfolding new
new-AreLengths [] = tt
new-AreLengths (x ∷ xs) = (bit_length-le x, new-AreLengths xs)

-- The amounts in bytes that the entries stand for: `MemVec::iter`.
abbrev pub amounts : MemVec → List ℕ
amounts v = map bit_length_inverse v

-- `MemVec::new` keeps every amount that is zero or a power of two.
pub amounts-new : (contents : List ℕ) → All IsScaled contents → amounts (new contents) ≡ contents
unfolding new
amounts-new [] a = refl
amounts-new (x ∷ xs) a = ap₂ ◌∷◌ (bit_length_inverse-bit_length a.0) (amounts-new xs a.1)

rounded_entry : (b : ℕ) → b ≤ 64 → bit_length (prev_power_of_two (bit_length_inverse b)) ≡ b
rounded_entry b h =
    rw (prev_power_of_two-IsScaled (bit_length_inverse-IsScaled b h))
      (bit_length-bit_length_inverse b h)

pub get_unscaled-at :
    (v : MemVec) (i : ℕ) {b : ℕ}
    → get_elem? v i ≡ some b
    → get_unscaled v i ≡ done (bit_length_inverse b)
unfolding get_unscaled
get_unscaled-at v i h = rw (h, get_unscaled)

pub set_unscaled-in :
    (v : MemVec) (i x : ℕ) → i < length v → set_unscaled v i x ≡ done (set v i (bit_length x))
unfolding set_unscaled
set_unscaled-in v i x h = let test : ltb i (length v) ≡ true = ground arith in rw test

discretize_loop_id :
    (n i : ℕ) (v : MemVec) → AreLengths v → i + n ≡ length v → discretize_loop n i v ≡ done v
unfolding discretize_loop
discretize_loop_id zero i v a e = refl
discretize_loop_id (suc n) i v a e =
    let in_range : i < length v = omega arith in
    let (b, at_i) = get_elem?-in v i in_range in
    let le_64 : b ≤ 64 = All-get_elem? (λ x. x ≤ 64) v i a at_i in
    rw
      (
        get_unscaled-at v i at_i,
        set_unscaled-in v i _ in_range,
        rounded_entry b le_64,
        set_self v i at_i,
      )
      (discretize_loop_id n (suc i) v a (omega arith))

-- Discretising limits whose entries are lengths of words never panics, and changes nothing.
pub discretize_id : (v : MemVec) → AreLengths v → discretize (standard v) ≡ done (standard v)
unfolding discretize
discretize_id v a = rw (discretize_loop_id (length v) 0 v a (omega arith))

snap_entry : {n : ℕ} → IsScaled n → (if n == 0 then 0 else next_power_of_two n) ≡ n
snap_entry {n} (IsScaled.nothing e) = rw (==-true n 0 e) (sym e)
snap_entry {n} (IsScaled.power k l e) =
    rw (e, ==-false (2 ^ k) 0 (omega (arith, two_pow_pos k))) (next_power_of_two-two_pow k l)

-- Snapping up a vector whose entries are lengths of words changes nothing, whatever `always` is.
pub snap_memvec_up_id : (v : MemVec) (always : Bool) → AreLengths v → snap_memvec_up v always ≡ v
unfolding snap_memvec_up
snap_memvec_up_id [] always a = refl
snap_memvec_up_id (b ∷ v) always a =
    ap₂ ◌∷◌
      (rw (snap_entry (bit_length_inverse-IsScaled b a.0)) (bit_length-bit_length_inverse b a.0))
      (snap_memvec_up_id v always a.1)
