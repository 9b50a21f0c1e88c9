-- ===== src/Layout/Drop.antt =====
-- morello/src/layout.rs, `dim_drop`: the dimensions that stay keep their numbers.
use morello.Base.{
  ℕ, zero, suc, ◌<◌, ◌≡◌, refl, ap, ◌∙◌, Bool, true, false, not, ◌&&◌, inl, inr, some, List, [],
  ◌∷◌, length, get_elem?, range_from, get_elem?-range_from, all_of, leb, ◌==◌, ==_iff, Bool-cases,
  some_eq, panic, arith,
}
use morello.Layout.{Dim, Layout, is_empty, dynamic_first, all_mentioned, new}
use morello.Layout.Update.{contains, retain_dims, first_contig_idx, dim_drop}

all_of-hit :
    {A : Type 0} (p : A → Bool) (xs : List A) (i : ℕ) {x : A}
    → get_elem? xs i ≡ some x
    → p x ≡ false
    → all_of p xs ≡ false
all_of-hit p [] i h f = cc
all_of-hit p (x ∷ xs) zero h f = let e : p x ≡ false = ap p (some_eq h) ∙ f in rw e refl
all_of-hit p (x ∷ xs) (suc i) h f = elim (Bool-cases (p x)) [
  | inl t ↦ rw t (all_of-hit p xs i h f)
  | inr t ↦ rw t refl
]

retained :
    (dropped : List ℕ) (dims : List Dim) (i : ℕ) {e : Dim}
    → get_elem? dims i ≡ some e
    → contains dropped e.0 ≡ false
    → (j : ℕ) × (get_elem? (retain_dims dropped dims) j ≡ some e)
unfolding retain_dims
retained dropped [] i h c = cc
retained dropped (d ∷ dims) zero {e} h c =
    let stays : contains dropped d.0 ≡ false =
      ap (λ (e : Dim). contains dropped e.0) (some_eq h) ∙ c in
    rw stays (zero, h)
retained dropped (d ∷ dims) (suc i) h c =
    let (j, later) = retained dropped dims i h c in
    elim (Bool-cases (contains dropped d.0)) [
      | inl t ↦ rw t (j, later)
      | inr t ↦ rw t (suc j, later)
    ]

none_left :
    (dropped : List ℕ) (dims : List Dim) (d : ℕ)
    → contains dropped d ≡ true
    → all_of (λ (f : Dim). not (f.0 == d)) (retain_dims dropped dims) ≡ true
unfolding retain_dims
none_left dropped [] d c = refl
none_left dropped (f ∷ dims) d c = elim (Bool-cases (contains dropped f.0)) [
  | inl t ↦ rw t (none_left dropped dims d c)
  | inr t ↦ elim (Bool-cases (f.0 == d)) [
    | inl same ↦
        let e : f.0 ≡ d = (==_iff f.0 d).0 same in
        let clash : contains dropped f.0 ≡ true = ap (contains dropped) e ∙ c in cc
    | inr other ↦ rw (t, other) (none_left dropped dims d c)
  ]
]

right_false : (a b : Bool) → b ≡ false → (a && b) ≡ false
right_false true b h = h
right_false false b h = refl

new-panics : (dims : List Dim) → all_mentioned dims ≡ false → new dims ≡ panic
unfolding new
new-panics dims h = elim (Bool-cases (is_empty dims)) [
  | inl e ↦ rw e refl
  | inr e ↦ rw (e, right_false (dynamic_first [] dims) (all_mentioned dims) h) refl
]

-- To drop a dimension while a dimension of a larger number stays panics, in a build with debug
-- assertions.
pub dim_drop-panics :
    (dims : Layout) (dropped : List ℕ) (contig d i : ℕ) {e : Dim}
    → contains dropped d ≡ true
    → get_elem? dims i ≡ some e
    → contains dropped e.0 ≡ false
    → d < e.0
    → dim_drop dims dropped contig ≡ panic
unfolding dim_drop all_mentioned first_contig_idx
dim_drop-panics dims [] contig d i c h s l = cc
dim_drop-panics dims (x ∷ dropped) contig d i {e} c h s l =
    let left = retain_dims (x ∷ dropped) dims in
    let (j, there) = retained (x ∷ dropped) dims i h s in
    let gap : all_of (λ k. not (all_of (λ (f : Dim). not (f.0 == k)) left)) (range_from 0 e.0)
        ≡ false =
      all_of-hit (λ k. not (all_of (λ (f : Dim). not (f.0 == k)) left)) (range_from 0 e.0) d
        (get_elem?-range_from 0 e.0 d l ∙ ap some (omega arith))
        (ap not (none_left (x ∷ dropped) dims d c)) in
    let unmentioned : all_mentioned left ≡ false =
      all_of-hit
        (λ (f : Dim).
          all_of (λ k. not (all_of (λ (g : Dim). not (g.0 == k)) left)) (range_from 0 f.0))
        left j there gap in
    elim (Bool-cases (leb contig (length dims))) [
      | inl t ↦ rw (t, new-panics left unmentioned) refl
      | inr t ↦ rw t refl
    ]
