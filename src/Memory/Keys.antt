-- ===== src/Memory/Keys.antt =====
-- morello/src/memorylimits.rs: `MemoryLimitsBimap`, the database coordinates of the limits.
use morello.Base.{
  ◌<◌, ◌≡◌, refl, [], ◌∷◌, ◌++◌, length, All, ltb, arith, get_elem?-middle, snoc_assoc, length-snoc,
  done, true,
}
use morello.Memory.{MemVec, standard, IsMemVec, bimap_apply, bimap_read, bimap_apply_inverse}
use morello.Memory.Entries.{AreLengths}

bimap_read-All :
    (pre v : MemVec) → All (λ b. b < 256) v → bimap_read (length v) (length pre) (pre ++ v) ≡ done v
unfolding bimap_read
bimap_read-All pre [] a = refl
bimap_read-All pre (b ∷ v) a =
    let ih = rw (length-snoc pre b, snoc_assoc pre b v) at (bimap_read-All (pre ++ b ∷ []) v a.1) in
    let small : ltb b 256 ≡ true = ground arith in rw (get_elem?-middle pre b v, small, ih)

AreLengths-bytes : (v : MemVec) → AreLengths v → All (λ b. b < 256) v
AreLengths-bytes [] a = tt
AreLengths-bytes (b ∷ v) a = (omega arith, AreLengths-bytes v a.1)

-- The coordinates of well-formed limits read back as the same limits.
pub bimap_apply_inverse-bimap_apply :
    (v : MemVec) → IsMemVec v → bimap_apply_inverse (bimap_apply (standard v)) ≡ done (standard v)
unfolding bimap_apply bimap_apply_inverse
bimap_apply_inverse-bimap_apply v m = rw (← m.0, bimap_read-All [] v (AreLengths-bytes v m.1))
