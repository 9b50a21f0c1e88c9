-- ===== src/Memory/Levels.antt =====
-- morello/src/memorylimits.rs: `zero_levels_slower_than_all` and
-- `any_nonzero_levels_slower_than`.
use morello.Base.{
  ℕ, zero, suc, ◌≤◌, ◌<◌, ◌^◌, ◌≡◌, ◌↔◌, refl, ap, Bool, false, not, ◌&&◌, ◌||◌, List, [], ◌∷◌,
  ◌++◌, length, all_of, ◌==◌, ==-false, if◌then◌else◌, inl, inr, Bool-cases, arith,
  get_elem?-middle, set-middle, snoc_assoc, length-snoc, length-append, done, two_pow_pos,
}
use morello.Utils.Bits.{bit_length_inverse}
use morello.Utils.Bits.Lengths.{bit_length-zero, bit_length_inverse-suc, bit_length_inverse-zero}
use morello.Memory.{
  MemVec, standard, set_unscaled, zero_loop, zero_levels_slower_than_all, nonzero_loop,
  any_nonzero_levels_slower_than,
}
use morello.Memory.Entries.{AreLengths, get_unscaled-at, set_unscaled-in}

module _ {Level : Type 0} (lt : Level → Level → Bool) (bounds : List Level) where
  -- The level is slower than every bound.
  abbrev pub slower_than_all : Level → Bool
  slower_than_all cur = all_of (λ bound. lt bound cur) bounds

  -- The entries of the levels slower than every bound become 0; the others stay.
  abbrev pub zeroed : List Level → MemVec → MemVec
  zeroed (cur ∷ levels) (b ∷ v) = (if slower_than_all cur then 0 else b) ∷ zeroed levels v
  zeroed _ v = v

  abbrev pub any_hit : List Level → MemVec → Bool
  any_hit (cur ∷ levels) (b ∷ v) =
      not (bit_length_inverse b == 0) && slower_than_all cur || any_hit levels v
  any_hit _ _ = false

  zero_entry :
      (cur : Level) (pre : MemVec) (b : ℕ) (v : MemVec)
      → (if slower_than_all cur
          then set_unscaled (pre ++ b ∷ v) (length pre) 0
          else done (pre ++ b ∷ v))
        ≡ done (pre ++ (if slower_than_all cur then 0 else b) ∷ v)
  zero_entry cur pre b v = elim (Bool-cases (slower_than_all cur)) [
    | inl hit ↦
        let in_range : length pre < length (pre ++ b ∷ v) =
          omega (arith, length-append pre (b ∷ v)) in
        rw (
          hit,
          set_unscaled-in (pre ++ b ∷ v) (length pre) 0 in_range,
          bit_length-zero,
          set-middle pre b 0 v,
        )
    | inr miss ↦ rw miss
  ]

  zero_loop-zeroed :
      (levels : List Level) (pre v : MemVec)
      → length levels ≡ length v
      → zero_loop lt levels (length pre) bounds (pre ++ v) ≡ done (pre ++ zeroed levels v)
  unfolding zero_loop
  zero_loop-zeroed [] pre v e = refl
  zero_loop-zeroed (cur ∷ levels) pre [] e = absurd (omega arith)
  zero_loop-zeroed (cur ∷ levels) pre (b ∷ v) e =
      let b' : ℕ = if slower_than_all cur then 0 else b in
      let ih = zero_loop-zeroed levels (pre ++ b' ∷ []) v (omega arith) in
      rw (zero_entry cur pre b v)
        (rw (length-snoc pre b', snoc_assoc pre b' v, snoc_assoc pre b' (zeroed levels v)) at ih)

  nonzero_loop-any_hit :
      (levels : List Level) (pre v : MemVec)
      → length levels ≡ length v
      → nonzero_loop lt levels (length pre) bounds (pre ++ v) ≡ done (any_hit levels v)
  unfolding nonzero_loop
  nonzero_loop-any_hit [] pre v e = refl
  nonzero_loop-any_hit (cur ∷ levels) pre [] e = absurd (omega arith)
  nonzero_loop-any_hit (cur ∷ levels) pre (b ∷ v) e =
      let ih = nonzero_loop-any_hit levels (pre ++ b ∷ []) v (omega arith) in
      let ih' = rw (length-snoc pre b, snoc_assoc pre b v) at ih in
      rw (get_unscaled-at (pre ++ b ∷ v) (length pre) (get_elem?-middle pre b v))
        (elim (Bool-cases (not (bit_length_inverse b == 0) && slower_than_all cur)) [
          | inl hit ↦ rw hit
          | inr miss ↦ rw miss ih'
        ])

  -- With one level for each entry, the limits keep the entry of each level that is not slower than
  -- all bounds, and 0 bytes at each level that is. It never panics.
  pub zero_levels_slower_than_all-zeroed :
      (levels : List Level) (v : MemVec)
      → length levels ≡ length v
      → zero_levels_slower_than_all lt levels (standard v) bounds
        ≡ done (standard (zeroed levels v))
  unfolding zero_levels_slower_than_all
  zero_levels_slower_than_all-zeroed levels v e = rw (zero_loop-zeroed levels [] v e)

  pub any_nonzero-any_hit :
      (levels : List Level) (v : MemVec)
      → length levels ≡ length v
      → any_nonzero_levels_slower_than lt levels (standard v) bounds ≡ done (any_hit levels v)
  unfolding any_nonzero_levels_slower_than
  any_nonzero-any_hit levels v e = nonzero_loop-any_hit levels [] v e

  no_amount_iff : (b : ℕ) → b ≤ 64 → (bit_length_inverse b == 0) ≡ (b == 0)
  no_amount_iff zero h = rw bit_length_inverse-zero
  no_amount_iff (suc b) h = rw (
    bit_length_inverse-suc b (omega arith),
    ==-false (2 ^ b) 0 (omega (arith, two_pow_pos b)),
    ==-false (suc b) 0 (omega arith),
  )

  unchanged_of_no_hit :
      (levels : List Level) (v : MemVec)
      → AreLengths v
      → any_hit levels v ≡ false
      → zeroed levels v ≡ v
  unchanged_of_no_hit [] v a h = refl
  unchanged_of_no_hit (cur ∷ levels) [] a h = refl
  unchanged_of_no_hit (cur ∷ levels) (b ∷ v) a h =
      ground (arith, no_amount_iff b a.0, unchanged_of_no_hit levels v a.1)

  no_hit_of_unchanged :
      (levels : List Level) (v : MemVec)
      → AreLengths v
      → zeroed levels v ≡ v
      → any_hit levels v ≡ false
  no_hit_of_unchanged [] v a h = refl
  no_hit_of_unchanged (cur ∷ levels) [] a h = refl
  no_hit_of_unchanged (cur ∷ levels) (b ∷ v) a h =
      ground (arith, no_amount_iff b a.0, no_hit_of_unchanged levels v a.1)

  -- Zeroing changes the limits exactly when some level slower than all bounds has bytes left.
  pub zero_levels-any_nonzero_iff :
      (levels : List Level) (v : MemVec)
      → length levels ≡ length v
      → AreLengths v
      → (zero_levels_slower_than_all lt levels (standard v) bounds ≡ done (standard v))
        ↔ (any_nonzero_levels_slower_than lt levels (standard v) bounds ≡ done false)
  zero_levels-any_nonzero_iff levels v e a =
      rw (zero_levels_slower_than_all-zeroed levels v e, any_nonzero-any_hit levels v e)
        (
          (λ h. ap done (no_hit_of_unchanged levels v a (cc h))),
          (λ h. ap (λ w. done (standard w)) (unchanged_of_no_hit levels v a (cc h))),
        )
