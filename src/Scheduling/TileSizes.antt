-- ===== src/Scheduling/TileSizes.antt =====
-- morello/src/spec.rs, `gen_tile_sizes`: the shapes that it proposes are tiles of the given shape.
use morello.Base.{
  ℕ, zero, suc, ◌^◌, ◌<◌, ◌≤◌, ◌≡◌, refl, ap, ◌∙◌, sym, subst, Bool, true, false, not, ◌&&◌, Option,
  none, some, some_eq, List, [], ◌∷◌, ◌++◌, map, length, set, length-set, get_elem?, at, range_from,
  All, All-append, all_of, leb, ◌==◌, Bool-cases, inl, inr, if◌then◌else◌, Outcome, done, done_eq,
  >>=-eq-done, ◌>>=◌, arith,
}
use morello.Utils.Bits.{is_power_of_two}
use morello.Layout.Update.{same_shape}
use morello.TensorSpec.{all_at_most}
use morello.Spec.Actions.{dim_range}
use morello.Scheduling.Actions.{flat_map, kept, smaller_in, gen_tile_sizes}
use morello.Scheduling.Sizes.{
  All-weaken, dim_range-below, dim_range-at_most, flat_map-All, kept-All, map-All, All-unit,
  at-done, dim_range-done, flat_map-done, range_from-below, smaller_in-done,
}

-- A tile of a shape: of its rank, nowhere larger, and, if the shape itself is dropped, not it.
abbrev pub IsTile : Bool → List ℕ → List ℕ → Type 0
IsTile drop_given shape s =
    (length s ≡ length shape)
    × (all_at_most s shape ≡ true)
    × ((drop_given && same_shape shape s) ≡ false)

leb-true : (a b : ℕ) → a ≤ b → leb a b ≡ true
leb-true a b h = ground arith

==-swap : (a b : ℕ) → (a == b) ≡ (b == a)
==-swap a b = ground arith

==-above : (a b : ℕ) → b < a → (a == b) ≡ false
==-above a b h = ground arith

==-self : (a : ℕ) → (a == a) ≡ true
==-self a = ground arith

&&-true : (b : Bool) → (b && true) ≡ b
&&-true true = refl
&&-true false = refl

drop_test : (drop same : Bool) → not (drop && same) ≡ true → (drop && same) ≡ false
drop_test false same h = refl
drop_test true false h = refl
drop_test true true h = cc

one_dim-IsTile :
    (drop_given : Bool) (one d : ℕ)
    → d ≤ one
    → not (drop_given && d == one) ≡ true
    → IsTile drop_given (one ∷ []) (d ∷ [])
unfolding all_at_most same_shape
one_dim-IsTile drop_given one d h k =
    let alone : (one == d && true) ≡ (d == one) = rw (==-swap d one) (&&-true (one == d)) in
    (
      refl,
      rw (leb-true d one h) refl,
      ap (λ b. drop_given && b) alone ∙ drop_test drop_given (d == one) k,
    )

-- A tile of the dimensions after the first, with a size for the first.
cons-IsTile :
    (drop_given : Bool) (dim d : ℕ) (shape rest : List ℕ)
    → IsTile false shape rest
    → d ≤ dim
    → not (drop_given && same_shape (dim ∷ shape) (d ∷ rest)) ≡ true
    → IsTile drop_given (dim ∷ shape) (d ∷ rest)
unfolding all_at_most
cons-IsTile drop_given dim d shape rest (n, most, _) h k =
    (ap suc n, rw (leb-true d dim h) most, drop_test drop_given _ k)

all_at_most_refl : (shape : List ℕ) → all_at_most shape shape ≡ true
unfolding all_at_most
all_at_most_refl [] = refl
all_at_most_refl (d ∷ shape) = rw (leb-true d d (omega arith)) (all_at_most_refl shape)

-- One dimension made smaller.
set-IsTile :
    (shape : List ℕ) (dim d : ℕ) {size : ℕ}
    → get_elem? shape dim ≡ some size
    → d < size
    → (all_at_most (set shape dim d) shape ≡ true) × (same_shape shape (set shape dim d) ≡ false)
unfolding all_at_most same_shape
set-IsTile [] dim d e h = cc
set-IsTile (x ∷ shape) zero d {size} e h =
    let lt : d < x = subst (λ n. d < n) (sym (some_eq e)) h in
    (rw (leb-true d x (omega (arith, lt))) (all_at_most_refl shape), rw (==-above x d lt) refl)
set-IsTile (x ∷ shape) (suc dim) d e h =
    let (most, differ) = set-IsTile shape dim d e h in
    (rw (leb-true x x (omega arith)) most, rw (==-self x) differ)

&&-false : (b : Bool) → (b && false) ≡ false
&&-false true = refl
&&-false false = refl

kept_longer :
    (drop_given : Bool) (dim : ℕ) (shape rest sizes : List ℕ)
    → IsTile false shape rest
    → All (λ d. d ≤ dim) sizes
    → All (IsTile drop_given (dim ∷ shape)) (
        kept
          (λ (s : List ℕ). not (drop_given && same_shape (dim ∷ shape) s))
          (map (λ (d : ℕ). d ∷ rest) sizes))
kept_longer drop_given dim shape rest [] tile h = tt
kept_longer drop_given dim shape rest (d ∷ sizes) tile (le, h) =
    elim (Bool-cases (not (drop_given && same_shape (dim ∷ shape) (d ∷ rest)))) [
      | inl new ↦ rw new (
        cons-IsTile drop_given dim d shape rest tile le new,
        kept_longer drop_given dim shape rest sizes tile h,
      )
      | inr given ↦ rw given (kept_longer drop_given dim shape rest sizes tile h)
    ]

abbrev AreTiles : Bool → List ℕ → List (List ℕ) → Type 0
AreTiles drop_given shape shapes = All (IsTile drop_given shape) shapes

smaller_in-AreTiles :
    (drop_given : Bool) (shape : List ℕ) (depth : Option ℕ) (dim : ℕ) (shapes : List (List ℕ))
    → smaller_in shape depth dim ≡ done shapes
    → AreTiles drop_given shape shapes
unfolding smaller_in
smaller_in-AreTiles drop_given shape depth dim shapes h =
    let (size, e, h1) = >>=-eq-done (at shape dim) _ h in
    let (sizes, f, h2) = >>=-eq-done (dim_range size false depth) _ h1 in
    subst (AreTiles drop_given shape) (done_eq h2) (
      map-All (λ (d : ℕ). set shape dim d) (IsTile drop_given shape) sizes
        (All-weaken _ _ sizes
          (λ d lt.
            let (most, differ) = set-IsTile shape dim d (at-done shape dim e) lt in
            (length-set shape dim d, most, ap (λ b. drop_given && b) differ ∙ &&-false drop_given))
          (dim_range-below size depth f)))

own-AreTiles :
    (drop_given : Bool) (shape : List ℕ)
    → AreTiles drop_given shape
        (if not drop_given && all_of is_power_of_two shape then shape ∷ [] else [])
own-AreTiles true shape = tt
own-AreTiles false shape = elim (Bool-cases (all_of is_power_of_two shape)) [
  | inl all ↦ rw all ((refl, all_at_most_refl shape, refl), tt)
  | inr some_not ↦ rw some_not tt
]

gen_tile_sizes-AreTiles :
    (shape : List ℕ) (drop_given multi_dim : Bool) (depth : Option ℕ) (shapes : List (List ℕ))
    → gen_tile_sizes shape drop_given multi_dim depth ≡ done shapes
    → All (IsTile drop_given shape) shapes
unfolding gen_tile_sizes
gen_tile_sizes-AreTiles [] drop_given multi_dim depth shapes h =
    subst (AreTiles drop_given []) (done_eq h) tt
gen_tile_sizes-AreTiles (one ∷ []) drop_given multi_dim depth shapes h =
    let (sizes, e, h1) = >>=-eq-done (dim_range one true depth) _ h in
    subst (AreTiles drop_given (one ∷ [])) (done_eq h1) (
      map-All (λ (d : ℕ). d ∷ []) (IsTile drop_given (one ∷ [])) _
        (All-weaken _ _ _ (λ d k. one_dim-IsTile drop_given one d k.0 k.1)
          (kept-All (λ (d : ℕ). d ≤ one) (λ (d : ℕ). not (drop_given && d == one)) sizes
            (dim_range-at_most one depth e))))
gen_tile_sizes-AreTiles (dim ∷ next ∷ dims) drop_given false depth shapes h =
    let shape = dim ∷ next ∷ dims in
    let (smaller, e, h1) =
      >>=-eq-done (flat_map (smaller_in shape depth) (range_from 0 (length shape))) _ h in
    subst (AreTiles drop_given shape) (done_eq h1) (
      All-append (IsTile drop_given shape) smaller _
        (flat_map-All (λ _. Unit {0}) (IsTile drop_given shape) (smaller_in shape depth)
          (range_from 0 (length shape))
          (λ i zs _ k. smaller_in-AreTiles drop_given shape depth i zs k)
          (All-unit {A = ℕ} (range_from 0 (length shape))) e)
        (own-AreTiles drop_given shape))
gen_tile_sizes-AreTiles (dim ∷ next ∷ dims) drop_given true depth shapes h =
    let (rests, e, h1) = >>=-eq-done (gen_tile_sizes (next ∷ dims) false true depth) _ h in
    flat_map-All (IsTile false (next ∷ dims)) (IsTile drop_given (dim ∷ next ∷ dims)) _ rests
      (λ rest zs k f. longer rest zs k f)
      (gen_tile_sizes-AreTiles (next ∷ dims) false true depth rests e) h1
  where
    shape : List ℕ
    shape = dim ∷ next ∷ dims

    longer :
        (rest : List ℕ) (zs : List (List ℕ))
        → IsTile false (next ∷ dims) rest
        → (dim_range dim true depth >>= λ sizes. done (
            kept
              (λ (new_shape : List ℕ). not (drop_given && same_shape shape new_shape))
              (map (λ (d : ℕ). d ∷ rest) sizes)))
          ≡ done zs
        → AreTiles drop_given shape zs
    longer rest zs tile h =
        let (sizes, e, h1) = >>=-eq-done (dim_range dim true depth) _ h in
        subst (AreTiles drop_given shape) (done_eq h1)
          (kept_longer drop_given dim (next ∷ dims) rest sizes tile (dim_range-at_most dim depth e))

gen_tile_sizes-done :
    (shape : List ℕ) (drop_given multi_dim : Bool)
    → All (λ d. d ≤ 2 ^ 31) shape
    → (shapes : List (List ℕ)) × (gen_tile_sizes shape drop_given multi_dim none ≡ done shapes)
unfolding gen_tile_sizes
gen_tile_sizes-done [] drop_given multi_dim h = ([], refl)
gen_tile_sizes-done (one ∷ []) drop_given multi_dim (le, _) =
    let (sizes, e) = dim_range-done one true le in
    (map (λ (d : ℕ). d ∷ []) (kept (λ (d : ℕ). not (drop_given && d == one)) sizes), rw e refl)
gen_tile_sizes-done (dim ∷ next ∷ dims) drop_given false h =
    let shape = dim ∷ next ∷ dims in
    let (smaller, e) =
      flat_map-done (λ i. i < length shape) (smaller_in shape none) (range_from 0 (length shape))
        (λ i lt. smaller_in-done shape i lt h)
        (range_from-below (length shape) 0 (length shape) (omega arith)) in
    (
      smaller ++ (if not drop_given && all_of is_power_of_two shape then shape ∷ [] else []),
      rw e refl,
    )
gen_tile_sizes-done (dim ∷ next ∷ dims) drop_given true (le, h) =
    let (rests, e) = gen_tile_sizes-done (next ∷ dims) false true h in
    let (sizes, k) = dim_range-done dim true le in
    let (shapes, f) =
      flat_map-done (λ _. Unit {0}) longer rests (λ rest _. (tiles rest sizes, rw k refl))
        (All-unit rests) in
    (shapes, rw e f)
  where
    tiles : List ℕ → List ℕ → List (List ℕ)
    tiles rest sizes =
        kept (λ (s : List ℕ). not (drop_given && same_shape (dim ∷ next ∷ dims) s))
          (map (λ (d : ℕ). d ∷ rest) sizes)

    longer : List ℕ → Outcome (List (List ℕ))
    longer rest = dim_range dim true none >>= λ sizes. done (tiles rest sizes)

-- Of a shape of dimensions of at most 2^31, and with no depth, `gen_tile_sizes` does not panic, with
-- several dimensions at once or one at a time. Every shape that it yields has the rank of the given
-- shape and is in no dimension larger; and it is not the given shape, if that is to be dropped.
pub gen_tile_sizes-IsTile :
    (shape : List ℕ) (drop_given multi_dim : Bool)
    → All (λ d. d ≤ 2 ^ 31) shape
    → (shapes : List (List ℕ)) × (gen_tile_sizes shape drop_given multi_dim none ≡ done shapes)
      × All (IsTile drop_given shape) shapes
gen_tile_sizes-IsTile shape drop_given multi_dim h =
    let (shapes, e) = gen_tile_sizes-done shape drop_given multi_dim h in
    (shapes, e, gen_tile_sizes-AreTiles shape drop_given multi_dim none shapes e)
