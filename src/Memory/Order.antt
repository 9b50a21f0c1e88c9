-- ===== src/Memory/Order.antt =====
-- morello/src/memorylimits.rs: `PartialOrd for MemVec`.
use Prim.Native.Nat.{Ordering}
use morello.Base.{
  ℕ, ◌≤◌, ◌<◌, ◌≡◌, ◌↔◌, refl, ap₂, true, ◌&&◌, none, some, [], ◌∷◌, length, inl, inr, Bool-cases,
  arith,
}
use morello.Memory.{MemVec, same_cmp, partial_cmp, le, ge}

-- Entry by entry, up to the shorter of the two.
abbrev pub Entrywise : (ℕ → ℕ → Type 0) → MemVec → MemVec → Type 0
Entrywise R (a ∷ v) (b ∷ w) = R a b × Entrywise R v w
Entrywise R _ _ = Unit

pub le-true : (v w : MemVec) → le v w ≡ true → Entrywise ◌≤◌ v w
unfolding le
le-true [] w h = tt
le-true (a ∷ v) [] h = tt
le-true (a ∷ v) (b ∷ w) h = ground (arith, le-true v w)

pub true-le : (v w : MemVec) → Entrywise ◌≤◌ v w → le v w ≡ true
unfolding le
true-le [] w h = refl
true-le (a ∷ v) [] h = refl
true-le (a ∷ v) (b ∷ w) h = ground (arith, true-le v w h.1)

-- `v <= w` holds exactly when no entry of `v` is above that of `w`.
pub le_iff : (v w : MemVec) → (le v w ≡ true) ↔ Entrywise ◌≤◌ v w
le_iff v w = (le-true v w, true-le v w)

-- `v >= w` is `w <= v`.
pub ge-eq-le : (v w : MemVec) → ge v w ≡ le w v
unfolding ge le
ge-eq-le [] [] = refl
ge-eq-le [] (b ∷ w) = refl
ge-eq-le (a ∷ v) [] = refl
ge-eq-le (a ∷ v) (b ∷ w) = ap₂ ◌&&◌ refl (ge-eq-le v w)

-- The order is transitive on vectors of one length.
pub le_trans :
    (u v w : MemVec) → length u ≡ length v → le u v ≡ true → le v w ≡ true → le u w ≡ true
unfolding le
le_trans [] v w e h k = refl
le_trans (a ∷ u) [] w e h k = absurd (omega arith)
le_trans (a ∷ u) (b ∷ v) [] e h k = refl
le_trans (a ∷ u) (b ∷ v) (c ∷ w) e h k = ground (arith, le_trans u v w)

-- Two vectors of one length that are each at most the other are equal.
pub le_antisymm : (v w : MemVec) → length v ≡ length w → le v w ≡ true → le w v ≡ true → v ≡ w
unfolding le
le_antisymm [] [] e h k = refl
le_antisymm [] (b ∷ w) e h k = absurd (omega arith)
le_antisymm (a ∷ v) [] e h k = absurd (omega arith)
le_antisymm (a ∷ v) (b ∷ w) e h k = ground (arith, le_antisymm v w)

abbrev pub Compares : Ordering → ℕ → ℕ → Type 0
Compares Ordering.lt a b = a < b
Compares Ordering.eq a b = a ≡ b
Compares Ordering.gt a b = b < a

same_cmp-true : (o : Ordering) (v w : MemVec) → same_cmp o v w ≡ true → Entrywise (Compares o) v w
unfolding same_cmp
same_cmp-true o [] w h = tt
same_cmp-true o (a ∷ v) [] h = tt
same_cmp-true Ordering.lt (a ∷ v) (b ∷ w) h = ground (arith, same_cmp-true Ordering.lt v w)
same_cmp-true Ordering.eq (a ∷ v) (b ∷ w) h = ground (arith, same_cmp-true Ordering.eq v w)
same_cmp-true Ordering.gt (a ∷ v) (b ∷ w) h = ground (arith, same_cmp-true Ordering.gt v w)

true-same_cmp : (o : Ordering) (v w : MemVec) → Entrywise (Compares o) v w → same_cmp o v w ≡ true
unfolding same_cmp
true-same_cmp o [] w h = refl
true-same_cmp o (a ∷ v) [] h = refl
true-same_cmp Ordering.lt (a ∷ v) (b ∷ w) h = ground (arith, true-same_cmp Ordering.lt v w h.1)
true-same_cmp Ordering.eq (a ∷ v) (b ∷ w) h = ground (arith, true-same_cmp Ordering.eq v w h.1)
true-same_cmp Ordering.gt (a ∷ v) (b ∷ w) h = ground (arith, true-same_cmp Ordering.gt v w h.1)

-- `partial_cmp` answers only where all entries compare alike: `Less` when every entry is below,
-- `Equal` when every entry is equal, `Greater` when every entry is above, and nothing otherwise.
pub partial_cmp_iff :
    (a b : ℕ) (v w : MemVec) (o : Ordering)
    → (partial_cmp (a ∷ v) (b ∷ w) ≡ some o) ↔ Entrywise (Compares o) (a ∷ v) (b ∷ w)
partial_cmp_iff a b v w o = (to o, from o)
  where
    to :
        (o : Ordering)
        → partial_cmp (a ∷ v) (b ∷ w) ≡ some o
        → Entrywise (Compares o) (a ∷ v) (b ∷ w)
    to Ordering.lt h = unfold partial_cmp in ground (arith, same_cmp-true Ordering.lt v w)
    to Ordering.eq h = unfold partial_cmp in ground (arith, same_cmp-true Ordering.eq v w)
    to Ordering.gt h = unfold partial_cmp in ground (arith, same_cmp-true Ordering.gt v w)

    from :
        (o : Ordering)
        → Entrywise (Compares o) (a ∷ v) (b ∷ w)
        → partial_cmp (a ∷ v) (b ∷ w) ≡ some o
    from Ordering.lt h = unfold partial_cmp in ground (arith, true-same_cmp Ordering.lt v w h.1)
    from Ordering.eq h = unfold partial_cmp in ground (arith, true-same_cmp Ordering.eq v w h.1)
    from Ordering.gt h = unfold partial_cmp in ground (arith, true-same_cmp Ordering.gt v w h.1)

-- Where the first entries are equal and the others are at most, but not all equal, `<=` holds and
-- `partial_cmp` finds the two vectors incomparable.
pub partial_cmp-misses_le :
    (a : ℕ) (v w : MemVec)
    → Entrywise ◌≤◌ v w
    → ¬ (Entrywise ◌≡◌ v w)
    → (le (a ∷ v) (a ∷ w) ≡ true) × (partial_cmp (a ∷ v) (a ∷ w) ≡ none)
unfolding le partial_cmp
partial_cmp-misses_le a v w h n = (
  ground (arith, true-le v w h),
  elim (Bool-cases (same_cmp Ordering.eq v w)) [
    | inl same ↦ absurd (n (same_cmp-true Ordering.eq v w same))
    | inr other ↦ ground arith
  ],
)
