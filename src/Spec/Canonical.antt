-- ===== src/Spec/Canonical.antt =====
-- morello/src/spec.rs: the canonical form of a Spec.
use morello.Base.{
  ℕ, Bool, true, false, not, ◌&&◌, List, [], ◌∷◌, map, length, replicate, ltb, ◌==◌, if◌then◌else◌,
  Outcome, done, panic, ◌>>=◌, ◌>>◌, assert,
}
use morello.Common.{Dtype, dtype_apply}
use morello.Memory.{zero_levels_slower_than_all, any_nonzero_levels_slower_than}
use morello.Layout.{Layout, Result, ok, err, row_major, contiguous_full, is_row_major}
use morello.Layout.Update.{FindPosition}
use morello.Target.{MemoryLevel}
use morello.TensorSpec.{TensorSpecAux, aux_canonicalize, aux_is_canonical, same_layout}
use morello.Spec.{PrimitiveBasics, matmul, conv, move_spec, zero_spec, parameter_shapes}
use morello.Spec.Logical.{LogicalSpec, primitive, compose, Spec, parameters}

-- itertools' `all_equal`.
unfoldable pub all_equal_by : {A : Type 0} → (A → A → Bool) → List A → Bool
all_equal_by same (a ∷ b ∷ xs) = same a b && all_equal_by same (a ∷ xs)
all_equal_by same _ = true

-- The condition on the element types, layouts and contiguous suffixes of a Move.
unfoldable pub all_full : {Level : Type 0} → List (TensorSpecAux Level) → Outcome Bool
all_full [] = done true
all_full (a ∷ auxes) =
    let rest = all_full auxes in
    contiguous_full a.layout >>= λ full. (if a.contig == full then rest else done false)

unfoldable pub is_bitwise_move :
    {Level : Type 0} → List Dtype → List (TensorSpecAux Level) → Outcome Bool
is_bitwise_move dtypes auxes =
    if all_equal_by (λ a b. dtype_apply a == dtype_apply b) dtypes
      && all_equal_by same_layout (map (λ a. a.layout) auxes)
    then all_full auxes
    else done false

unfoldable pub set_layouts :
    {Level : Type 0} → Layout → ℕ → List (TensorSpecAux Level) → List (TensorSpecAux Level)
set_layouts layout contig [] = []
set_layouts layout contig (a ∷ auxes) =
    record a { layout = layout; contig = contig } ∷ set_layouts layout contig auxes

-- The rewriting of a Move to a row-major one; `u8::try_from` bounds the rank.
unfoldable pub to_bitwise_move :
    {Level : Type 0}
    → List ℕ
    → List Dtype
    → List (TensorSpecAux Level)
    → Outcome (List (TensorSpecAux Level))
to_bitwise_move shape dtypes auxes = is_bitwise_move dtypes auxes >>= λ bitwise.
    (if bitwise
      then (assert (ltb (length shape) 256)
          >> (row_major (length shape) >>= λ rm.
              contiguous_full rm >>= λ contig. done (set_layouts rm contig auxes)))
      else done auxes)

module _ (find_position : FindPosition) {Level : Type 0} where
  -- The loop over the operands' shapes, zipped with their auxiliary parts.
  unfoldable pub canonicalize_auxes :
      List (List ℕ) → List (TensorSpecAux Level) → Outcome (Result (List (TensorSpecAux Level)))
  canonicalize_auxes (shape ∷ shapes) (a ∷ auxes) = aux_canonicalize find_position a shape >>= λ r.
      elim r [
        | err e ↦ done (err e)
        | ok b ↦ canonicalize_auxes shapes auxes >>= λ rest. elim rest [
          | err e ↦ done (err e)
          | ok bs ↦ done (ok (b ∷ bs))
        ]
      ]
  canonicalize_auxes _ auxes = done (ok auxes)

  unfoldable pub canonical_auxes :
      PrimitiveBasics → List (TensorSpecAux Level) → Outcome (Result (List (TensorSpecAux Level)))
  canonical_auxes basics auxes = elim basics.typ [
    | matmul accum ↦ parameter_shapes basics >>= λ shapes. canonicalize_auxes shapes auxes
    | conv accum ↦ parameter_shapes basics >>= λ shapes. canonicalize_auxes shapes auxes
    | move_spec ↦ canonicalize_auxes (replicate (length auxes) basics.spec_shape) auxes >>= λ r.
        elim r [
          | err e ↦ done (err e)
          | ok bs ↦ to_bitwise_move basics.spec_shape basics.dtypes bs >>= λ cs. done (ok cs)
        ]
    | zero_spec ↦ elim auxes [
      | [] ↦ panic
      | a ∷ rest ↦ canonicalize_auxes (basics.spec_shape ∷ []) (a ∷ rest)
    ]
  ]

  unfoldable pub logical_canonicalize : LogicalSpec Level → Outcome (Result (LogicalSpec Level))
  logical_canonicalize (compose components auxes serial) = panic
  logical_canonicalize (primitive basics auxes serial) = canonical_auxes basics auxes >>= λ r.
      elim r [ err e ↦ done (err e) | ok bs ↦ done (ok (primitive basics bs serial)) ]

-- `is_canonical`, with the early returns of its loops.
unfoldable pub auxes_are_canonical :
    {Level : Type 0} → List (List ℕ) → List (TensorSpecAux Level) → Outcome Bool
auxes_are_canonical (shape ∷ shapes) (a ∷ auxes) =
    let rest = auxes_are_canonical shapes auxes in
    aux_is_canonical a shape >>= λ c. (if c then rest else done false)
auxes_are_canonical _ auxes = done true

unfoldable pub all_row_major : {Level : Type 0} → List (TensorSpecAux Level) → Outcome Bool
all_row_major [] = done true
all_row_major (a ∷ auxes) =
    let rest = all_row_major auxes in
    if not (is_row_major a.layout)
    then done false
    else (contiguous_full a.layout >>= λ full. (if a.contig == full then rest else done false))

unfoldable pub logical_is_canonical : {Level : Type 0} → LogicalSpec Level → Outcome Bool
logical_is_canonical (compose components auxes serial) = panic
logical_is_canonical (primitive basics auxes serial) = elim basics.typ [
  | matmul accum ↦ parameter_shapes basics >>= λ shapes. auxes_are_canonical shapes auxes
  | conv accum ↦ parameter_shapes basics >>= λ shapes. auxes_are_canonical shapes auxes
  | move_spec ↦ auxes_are_canonical (replicate (length auxes) basics.spec_shape) auxes >>= λ each.
      (if not each
        then done false
        else (is_bitwise_move basics.dtypes auxes >>= λ bitwise.
            (if bitwise then all_row_major auxes else done true)))
  | zero_spec ↦ elim auxes [ [] ↦ panic | a ∷ rest ↦ aux_is_canonical a basics.spec_shape ]
]

module _ (find_position : FindPosition) {Level : Type 0} (memory : MemoryLevel Level)
    (lt : Level → Level → Bool) (levels : List Level) where
  unfoldable pub spec_canonicalize : Spec Level → Outcome (Result (Spec Level))
  spec_canonicalize spec = parameters memory spec.logical >>= λ ps.
      zero_levels_slower_than_all lt levels spec.limits (map (λ p. p.aux.level) ps) >>= λ limits.
      logical_canonicalize find_position spec.logical >>= λ r. elim r [
        | err e ↦ done (err e)
        | ok logical ↦ done (ok (record { logical = logical; limits = limits }))
      ]

  unfoldable pub spec_is_canonical : Spec Level → Outcome Bool
  spec_is_canonical spec = parameters memory spec.logical >>= λ ps.
      any_nonzero_levels_slower_than lt levels spec.limits (map (λ p. p.aux.level) ps) >>= λ any.
      (if any then done false else logical_is_canonical spec.logical)
