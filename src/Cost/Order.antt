-- ===== src/Cost/Order.antt =====
-- morello/src/cost.rs: `Ord for Cost` is a total order.
use Prim.Native.Nat.{compare, Ordering}
use morello.Base.{ℕ, ◌≡◌, ◌↔◌, refl, ap, sym, [], ◌∷◌, length, arith}
use morello.Memory.{MemVec}
use morello.Cost.{Cost, cmp_peaks, cmp}

abbrev pub swap : Ordering → Ordering
swap Ordering.lt = Ordering.gt
swap Ordering.eq = Ordering.eq
swap Ordering.gt = Ordering.lt

compare-swap : (a b : ℕ) → compare b a ≡ swap (compare a b)
compare-swap a b = ground arith

cmp_peaks-swap : (v w : MemVec) → cmp_peaks w v ≡ swap (cmp_peaks v w)
unfolding cmp_peaks
cmp_peaks-swap [] [] = refl
cmp_peaks-swap [] (b ∷ w) = refl
cmp_peaks-swap (a ∷ v) [] = refl
cmp_peaks-swap (a ∷ v) (b ∷ w) = ground (arith, cmp_peaks-swap v w)

cmp_peaks-eq : (v w : MemVec) → length v ≡ length w → cmp_peaks v w ≡ Ordering.eq → v ≡ w
unfolding cmp_peaks
cmp_peaks-eq [] [] e h = refl
cmp_peaks-eq [] (b ∷ w) e h = absurd (omega arith)
cmp_peaks-eq (a ∷ v) [] e h = absurd (omega arith)
cmp_peaks-eq (a ∷ v) (b ∷ w) e h = ground (arith, cmp_peaks-eq v w)

cmp_peaks_self : (v : MemVec) → cmp_peaks v v ≡ Ordering.eq
unfolding cmp_peaks
cmp_peaks_self [] = refl
cmp_peaks_self (a ∷ v) = ground (arith, cmp_peaks_self v)

cmp_peaks_trans :
    (u v w : MemVec)
    → length u ≡ length v
    → length v ≡ length w
    → cmp_peaks u v ≡ Ordering.lt
    → cmp_peaks v w ≡ Ordering.lt
    → cmp_peaks u w ≡ Ordering.lt
unfolding cmp_peaks
cmp_peaks_trans [] v w e f h k = cc
cmp_peaks_trans (a ∷ u) [] w e f h k = cc
cmp_peaks_trans (a ∷ u) (b ∷ v) [] e f h k = cc
cmp_peaks_trans (a ∷ u) (b ∷ v) (c ∷ w) e f h k = ground (arith, cmp_peaks_trans u v w)

cmp_peaks-eq_left :
    (u v w : MemVec)
    → length u ≡ length v
    → cmp_peaks u v ≡ Ordering.eq
    → cmp_peaks u w ≡ cmp_peaks v w
cmp_peaks-eq_left u v w e h = ap (λ x. cmp_peaks x w) (cmp_peaks-eq u v e h)

cmp_peaks-eq_right :
    (u v w : MemVec)
    → length v ≡ length w
    → cmp_peaks v w ≡ Ordering.eq
    → cmp_peaks u w ≡ cmp_peaks u v
cmp_peaks-eq_right u v w e h = sym (ap (λ x. cmp_peaks u x) (cmp_peaks-eq v w e h))

-- To compare the other way round turns the result round.
pub cmp-swap : (c d : Cost) → cmp d c ≡ swap (cmp c d)
unfolding cmp
cmp-swap c d = ground (arith, cmp_peaks-swap c.peaks d.peaks)

-- Costs whose peaks have the same number of levels compare as equal exactly when they are equal.
pub cmp_eq_iff : (c d : Cost) → length c.peaks ≡ length d.peaks → (cmp c d ≡ Ordering.eq) ↔ (c ≡ d)
unfolding cmp
cmp_eq_iff c d e = (
  λ h.
      let m : c.main ≡ d.main = ground arith in
      let p : cmp_peaks c.peaks d.peaks ≡ Ordering.eq = ground arith in
      let q : c.depth ≡ d.depth = ground arith in
      let r = cmp_peaks-eq c.peaks d.peaks e p in
      λ i. record { main = m i; peaks = r i; depth = q i },
  λ h. rw h (ground (arith, cmp_peaks_self d.peaks)),
)

-- "Less" is transitive on costs over one number of levels.
pub cmp_trans :
    (b c d : Cost)
    → length b.peaks ≡ length c.peaks
    → length c.peaks ≡ length d.peaks
    → cmp b c ≡ Ordering.lt
    → cmp c d ≡ Ordering.lt
    → cmp b d ≡ Ordering.lt
unfolding cmp
cmp_trans b c d e f h k = ground (
  arith,
  cmp_peaks_trans b.peaks c.peaks d.peaks e f,
  cmp_peaks-eq_left b.peaks c.peaks d.peaks e,
  cmp_peaks-eq_right b.peaks c.peaks d.peaks f,
)
