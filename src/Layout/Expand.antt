-- ===== src/Layout/Expand.antt =====
-- morello/src/layout.rs: `expand_physical_shape` keeps the number of elements.
use mathlib.Core.List.{reverse}
use native.Mathlib.Nat.{div-add-mod}
use morello.Base.{
  ℕ, zero, suc, ◌*◌, ◌/◌, ◌%◌, ◌<◌, max, ◌≡◌, refl, ap, inl, inr, true, List, [], ◌∷◌, get_elem?,
  set, product, all_of, All, leb, leb→le, ◌==◌, ==_iff, Bool-cases, Option-cases, Option, none,
  some, if◌then◌else◌, Outcome, done, panic, ◌>>=◌, at, arith,
}
use morello.Layout.{
  PhysDim, dynamic, packed, odd_even, Dim, Layout, invalid_shape, Result, ok, err, take_dim,
  expand_loop, expand_physical_shape,
}

-- The elements that are still to be laid out; a dimension used up by a dynamic one counts once.
abbrev pub volume_left : List ℕ → ℕ
volume_left [] = 1
volume_left (x ∷ xs) = max x 1 * volume_left xs

volume_left-set :
    (xs : List ℕ) (i v : ℕ) {x : ℕ}
    → get_elem? xs i ≡ some x
    → volume_left (set xs i v) * max x 1 ≡ volume_left xs * max v 1
volume_left-set [] i v h = cc
volume_left-set (y ∷ xs) zero v {x} h = let e : y ≡ x = cc in rw e (omega arith)
volume_left-set (y ∷ xs) (suc i) v {x} h =
    omega (arith, ap (λ (t : ℕ). max y 1 * t) (volume_left-set xs i v h))

mul_cancel : (a b c : ℕ) → 0 < c → a * c ≡ b * c → a ≡ b
mul_cancel a b c pos h = grind arith

full_quotient : (s q r : ℕ) → s * q ≡ r → 0 < r → s * max q 1 ≡ r
full_quotient s zero r e pos = absurd (omega arith)
full_quotient s (suc q) r e pos = let m : max (suc q) 1 ≡ suc q = omega arith in rw m e

-- A result that keeps the volume.
abbrev pub Keeps : ℕ → Outcome (Result (List ℕ × List ℕ)) → Type 0
Keeps volume (done (ok (physical, remaining))) = volume_left remaining * product physical ≡ volume
Keeps volume _ = Unit

fixed :
    (s r : ℕ) {size left : ℕ}
    → 0 < r
    → if◌then◌else◌ {A = Option (ℕ × ℕ)} (r % s == 0) (some (s, r / s)) none ≡ some (size, left)
    → size * max left 1 ≡ r
fixed s r {size} {left} pos h = elim (Bool-cases (r % s == 0)) [
  | inl divides ↦
      let e : some (s, r / s) ≡ some (size, left) = rw divides at h in
      let a : s ≡ size = cc e in
      let b : r / s ≡ left = cc e in
      let parts = div-add-mod r s in
      let exact = (==_iff _ _).0 divides in
      rw (← a, ← b) (full_quotient s (r / s) r (omega (arith, parts)) pos)
  | inr misses ↦ absurd (let e = rw misses at h in cc e)
]

-- What a dimension takes and what it leaves make up the size, where a used-up rest counts once.
pub take_dim-volume :
    (p : PhysDim) (r : ℕ) {size left : ℕ}
    → 0 < r
    → take_dim p r ≡ some (size, left)
    → size * max left 1 ≡ r
unfolding take_dim
take_dim-volume dynamic r pos h = ground arith
take_dim-volume (packed s) r {size} {left} pos h = fixed s r pos h
take_dim-volume (odd_even s) r {size} {left} pos h = fixed s r pos h

split_off :
    (rest rest' size left x p : ℕ)
    → rest' * max x 1 ≡ rest * max left 1
    → size * max left 1 ≡ x
    → 0 < x
    → rest' * (size * p) ≡ rest * p
split_off rest rest' size left x p e f pos =
    let m : max x 1 ≡ x = omega arith in
    let g : rest' * size * max left 1 ≡ rest * max left 1 = omega (arith, rw (m, ← f) at e) in
    let h : rest' * size ≡ rest = mul_cancel (rest' * size) rest (max left 1) (omega arith) g in
    omega (arith, ap (λ (t : ℕ). t * p) h)

expand_loop-Keeps :
    (shape : List ℕ) (dims : List Dim) (remaining physical : List ℕ)
    → Keeps (volume_left remaining * product physical) (expand_loop shape dims remaining physical)
unfolding expand_loop
expand_loop-Keeps shape [] remaining physical = refl
expand_loop-Keeps shape ((dim, phys_dim) ∷ dims) remaining physical =
    elim (Option-cases (get_elem? remaining dim)) [
      | inl out ↦ rw (out, at) tt
      | inr (x, at_dim) ↦
          rw (at_dim, at)
            (elim (Bool-cases (x == 0)) [
              | inl used_up ↦ rw used_up tt
              | inr unused ↦ rw unused (elim (Option-cases (take_dim phys_dim x)) [
                | inl bad ↦ rw (bad, expand_loop) tt
                | inr ((size, left), taken) ↦
                    let pos : 0 < x = ground arith in
                    let keeps =
                      expand_loop-Keeps shape dims (set remaining dim left) (size ∷ physical) in
                    let e =
                      split_off (volume_left remaining) (volume_left (set remaining dim left)) size
                        left x (product physical) (volume_left-set remaining dim left at_dim)
                        (take_dim-volume phys_dim x pos taken) pos in
                    rw (taken, expand_loop) (rw e at keeps)
              ])
            ])
    ]

all_used_up : (xs : List ℕ) → all_of (λ d. leb d 1) xs ≡ true → volume_left xs ≡ 1
all_used_up [] h = refl
all_used_up (x ∷ xs) h = elim (Bool-cases (leb x 1)) [
  | inl small ↦
      let rest = all_used_up xs (rw small at h) in
      let bound = leb→le x 1 small in let m : max x 1 ≡ 1 = omega arith in rw (m, rest) refl
  | inr big ↦ absurd (let e = rw big at h in cc e)
]

volume_left-product : (shape : List ℕ) → All (λ s. 0 < s) shape → volume_left shape ≡ product shape
volume_left-product [] h = refl
volume_left-product (x ∷ xs) h =
    let m : max x 1 ≡ x = let pos = h.0 in omega arith in rw (m, volume_left-product xs h.1) refl

-- The test after the loop of `expand_physical_shape`.
abbrev after_loop : List ℕ → Result (List ℕ × List ℕ) → Outcome (Result (List ℕ))
after_loop logical_shape (err e) = done (err e)
after_loop logical_shape (ok (physical, remaining)) =
    if all_of (λ d. leb d 1) remaining
    then done (ok physical)
    else done (err (invalid_shape logical_shape))

after_loop-product :
    (shape : List ℕ) (volume : ℕ) (r : Outcome (Result (List ℕ × List ℕ))) {physical : List ℕ}
    → Keeps volume r
    → (r >>= after_loop shape) ≡ done (ok physical)
    → product physical ≡ volume
after_loop-product shape volume panic keeps h = cc
after_loop-product shape volume (done (err e)) keeps h = cc
after_loop-product shape volume (done (ok (sizes, remaining))) {physical} keeps h =
    elim (Bool-cases (all_of (λ d. leb d 1) remaining)) [
      | inl all ↦
          let e : done (ok sizes) ≡ done (ok physical) = rw all at h in
          let same : sizes ≡ physical = cc e in
          let one = all_used_up remaining all in
          rw (← same) (let k = rw one at keeps in omega (arith, k))
      | inr some_left ↦ absurd (let e = rw some_left at h in cc e)
    ]

-- Where the layout expands a shape of positive sizes, the physical shape has the same number of
-- elements as the logical one, whatever the packings and interleavings.
pub expand_physical_shape-product :
    (dims : Layout) (shape : List ℕ) {physical : List ℕ}
    → All (λ s. 0 < s) shape
    → expand_physical_shape dims shape ≡ done (ok physical)
    → product physical ≡ product shape
unfolding expand_physical_shape
expand_physical_shape-product dims shape {physical} positive h =
    let keeps = expand_loop-Keeps shape (reverse dims) shape [] in
    let e =
      after_loop-product shape (volume_left shape * 1) (expand_loop shape (reverse dims) shape [])
        keeps h in
    let v = volume_left-product shape positive in omega (arith, e, v)
