-- ===== src/Spec/Actions.antt =====
-- morello/src/spec.rs: the sizes that actions try, and where they apply.
--
-- The iterators are their lists; where the source panics on reaching an element, the list does.
use morello.Base.{
  ℕ, zero, suc, ◌+◌, ◌-◌, ◌/◌, ◌%◌, ◌^◌, ◌<◌, ◌≤◌, ◌≡◌, ap, ◌∙◌, inl, inr, Bool, true, false, not,
  ◌&&◌, Option, none, some, List, [], ◌∷◌, ◌++◌, map, all_of, range_from, ltb, ltb→lt, ltb-false,
  subst, ◌==◌, if◌then◌else◌, Bool-cases, Outcome, done, panic, ◌>>=◌, ◌>>◌, assert, at, arith,
}
use morello.Common.{Dtype, size}
use morello.Utils.Bits.{is_power_of_two}
use morello.Layout.Update.{same_shape}
use morello.Target.{MemoryLevel, no_sizes}
use morello.TensorSpec.{TensorSpec, TensorSpecAux, is_valid_tile_shape}
use morello.Spec.{matmul, conv, move_spec, zero_spec, dim_size, spatial_of}
use morello.Spec.Logical.{LogicalSpec, primitive, compose, parameters}

-- The standard library's `trailing_zeros` of a u32, by the bits that are left to read.
unfoldable pub trailing_zeros : ℕ → ℕ → ℕ
trailing_zeros zero n = 0
trailing_zeros (suc bits) n =
    let rest = suc (trailing_zeros bits (n / 2)) in if n % 2 == 1 then 0 else rest

-- The powers of two from an exponent on that are below a size; `left` exponents are in range
-- before `2u32.pow` overflows.
unfoldable pub powers_below : ℕ → ℕ → ℕ → Outcome (List ℕ)
powers_below zero power dim = panic
powers_below (suc left) power dim =
    let rest = powers_below left (suc power) dim in
    if ltb (2 ^ power) dim then (rest >>= λ ps. done (2 ^ power ∷ ps)) else done []

unfoldable pub range_start : ℕ → Option ℕ → Outcome ℕ
range_start dim none = done 0
range_start dim (some d) = assert (is_power_of_two dim) >> done (trailing_zeros 32 dim - d)

unfoldable pub dim_range : ℕ → Bool → Option ℕ → Outcome (List ℕ)
dim_range dim include_end depth = do
  start ← range_start dim depth
  powers ← powers_below (32 - start) start dim
  done (powers ++ (if include_end then dim ∷ [] else []))

-- The map of `gen_vector_sizes`.
unfoldable pub vector_counts : ℕ → List ℕ → Outcome (List ℕ)
vector_counts dtype_size [] = done []
vector_counts dtype_size (vb ∷ vector_bytes) = do
  n ← dim_size (vb / dtype_size)
  rest ← vector_counts dtype_size vector_bytes
  done (n ∷ rest)

unfoldable pub gen_vector_sizes : Dtype → List ℕ → Outcome (List ℕ)
gen_vector_sizes dtype vector_bytes = do
  assert (not (no_sizes vector_bytes))
  assert (all_of (λ vb. vb % size dtype == 0) vector_bytes)
  vector_counts (size dtype) vector_bytes

unfoldable pub gen_vector_sizes_opt : Dtype → List ℕ → Outcome (List (Option ℕ))
gen_vector_sizes_opt dtype vector_bytes =
    if no_sizes vector_bytes
    then done (none ∷ [])
    else (gen_vector_sizes dtype vector_bytes >>= λ sizes. done (map some sizes))

abbrev pub has_unit_vector : {Level : Type 0} → TensorSpecAux Level → Bool
has_unit_vector a = elim a.vector_size [ none ↦ true | some n ↦ n == 1 ]

module _ {Level : Type 0} (memory : MemoryLevel Level) where
  -- Of an accumulating Conv; any other Spec panics.
  unfoldable pub can_spatial_split : LogicalSpec Level → Outcome Bool
  can_spatial_split (compose components auxes serial) = panic
  can_spatial_split (primitive basics auxes serial) = elim basics.typ [
    | matmul accum ↦ panic
    | move_spec ↦ panic
    | zero_spec ↦ panic
    | conv accum ↦ do
      assert accum
      ps ← parameters memory (primitive basics auxes serial)
      image ← at ps 0
      filters ← at ps 1
      image_spatial ← spatial_of image.shape
      filters_spatial ← spatial_of filters.shape
      done (same_shape image_spatial filters_spatial && all_of has_unit_vector auxes)
  ]

  -- The filter of `split_actions`, whose actions are their sizes `k`.
  unfoldable pub valid_splits :
      TensorSpec Level → TensorSpec Level → ℕ → ℕ → List ℕ → Outcome (List ℕ)
  valid_splits lhs rhs m n [] = done []
  valid_splits lhs rhs m n (k ∷ sizes) =
      let rest = valid_splits lhs rhs m n sizes in
      is_valid_tile_shape memory lhs (m ∷ k ∷ []) false >>= λ left.
      if not left
      then rest
      else (is_valid_tile_shape memory rhs (k ∷ n ∷ []) false >>= λ right.
          (if not right then rest else (rest >>= λ ks. done (k ∷ ks))))

  unfoldable pub split_sizes : LogicalSpec Level → List ℕ → Option ℕ → Outcome (List ℕ)
  split_sizes spec (m ∷ orig_k ∷ n ∷ []) depth = do
    ps ← parameters memory spec
    sizes ← dim_range orig_k false depth
    lhs ← at ps 0
    rhs ← at ps 1
    valid_splits lhs rhs m n sizes
  split_sizes spec _ depth = panic

  unfoldable pub split_actions : LogicalSpec Level → Option ℕ → Outcome (List ℕ)
  split_actions (compose components auxes serial) depth = panic
  split_actions (primitive basics auxes serial) depth = elim basics.typ [
    | matmul accum ↦
        assert accum >> split_sizes (primitive basics auxes serial) basics.spec_shape depth
    | conv accum ↦ panic
    | move_spec ↦ panic
    | zero_spec ↦ panic
  ]

abbrev pub powers_from : ℕ → ℕ → List ℕ
powers_from start n = map (λ k. 2 ^ k) (range_from start n)

powers_below_stop :
    (left start dim : ℕ) → ltb (2 ^ start) dim ≡ false → powers_below (suc left) start dim ≡ done []
unfolding powers_below
powers_below_stop left start dim h =
    ap
      (λ b.
        if b then (powers_below left (suc start) dim >>= λ ps. done (2 ^ start ∷ ps)) else done [])
      h

powers_below_more :
    (left start dim : ℕ) (ps : List ℕ)
    → ltb (2 ^ start) dim ≡ true
    → powers_below left (suc start) dim ≡ done ps
    → powers_below (suc left) start dim ≡ done (2 ^ start ∷ ps)
unfolding powers_below
powers_below_more left start dim ps h e =
    ap
      (λ b.
        if b then (powers_below left (suc start) dim >>= λ qs. done (2 ^ start ∷ qs)) else done [])
      h
    ∙ ap (λ r. r >>= λ qs. done (2 ^ start ∷ qs)) e

-- The powers up to an exponent, with the size between the last of them and the next.
abbrev pub PowersUpTo : ℕ → ℕ → Outcome (List ℕ) → ℕ → Type 0
PowersUpTo start dim r n =
    (r ≡ done (powers_from start n))
    × (dim ≤ 2 ^ (start + n))
    × ((i : ℕ) → i < n → 2 ^ (start + i) < dim)

powers_below_empty :
    (left start dim : ℕ)
    → ltb (2 ^ start) dim ≡ false
    → (n : ℕ) × PowersUpTo start dim (powers_below (suc left) start dim) n
powers_below_empty left start dim h = (
  0,
  (
    powers_below_stop left start dim h,
    subst (λ k. dim ≤ 2 ^ k) (omega arith) (ltb-false (2 ^ start) dim h),
    λ i lt. absurd (omega arith),
  ),
)

powers_below_longer :
    (left start dim : ℕ)
    → ltb (2 ^ start) dim ≡ true
    → (n : ℕ) × PowersUpTo (suc start) dim (powers_below left (suc start) dim) n
    → (n : ℕ) × PowersUpTo start dim (powers_below (suc left) start dim) n
powers_below_longer left start dim h (n, (e, top, below)) = (
  suc n,
  (
    powers_below_more left start dim (powers_from (suc start) n) h e,
    subst (λ k. dim ≤ 2 ^ k) (omega arith) top,
    each,
  ),
)
  where
    each : (i : ℕ) → i < suc n → 2 ^ (start + i) < dim
    each zero lt = subst (λ k. 2 ^ k < dim) (omega arith) (ltb→lt (2 ^ start) dim h)
    each (suc i) lt = subst (λ k. 2 ^ k < dim) (omega arith) (below i (omega arith))

-- As many powers as are below the size.
powers_below-powers_from :
    (left start dim : ℕ)
    → dim ≤ 2 ^ (start + left)
    → (n : ℕ) × PowersUpTo start dim (powers_below (suc left) start dim) n
powers_below-powers_from zero start dim h = elim (Bool-cases (ltb (2 ^ start) dim)) [
  | inl e ↦ absurd (arith_gap (ltb→lt (2 ^ start) dim e) (subst (λ k. dim ≤ 2 ^ k) (omega arith) h))
  | inr e ↦ powers_below_empty zero start dim e
]
  where
    arith_gap : {a b : ℕ} → a < b → b ≤ a → ⊥
    arith_gap lt le = omega arith
powers_below-powers_from (suc left) start dim h = elim (Bool-cases (ltb (2 ^ start) dim)) [
  | inl e ↦
      powers_below_longer (suc left) start dim e
        (powers_below-powers_from left (suc start) dim (subst (λ k. dim ≤ 2 ^ k) (omega arith) h))
  | inr e ↦ powers_below_empty (suc left) start dim e
]

-- Without a depth, `dim_range` of a size of at most `2 ^ 31` never overflows: it yields every power
-- of two below the size, in ascending order and no others, then the size itself exactly if the end
-- is included.
pub dim_range-powers_from :
    (dim : ℕ) (include_end : Bool)
    → dim ≤ 2 ^ 31
    → (n : ℕ) × (dim_range dim include_end none
        ≡ done (powers_from 0 n ++ (if include_end then dim ∷ [] else [])))
      × (dim ≤ 2 ^ n)
      × ((i : ℕ) → i < n → 2 ^ i < dim)
unfolding dim_range range_start
dim_range-powers_from dim include_end h =
    let (n, (e, top, below)) = powers_below-powers_from 31 0 dim h in
    (
      n,
      ap (λ r. r >>= λ ps. done (ps ++ (if include_end then dim ∷ [] else []))) e,
      subst (λ k. dim ≤ 2 ^ k) (omega arith) top,
      λ i lt. subst (λ k. 2 ^ k < dim) (omega arith) (below i lt),
    )
