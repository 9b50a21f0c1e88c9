-- ===== src/Scheduling/Apply.antt =====
-- morello/src/scheduling.rs, the rest of `Action::apply`: ToAccum, Peel and Place, and the choice
-- between the cases.
--
-- The `todo!()`s panic. Products of dimension sizes are u32, the bytes of a tensor u64.
use morello.Base.{
  ℕ, ◌+◌, ◌-◌, ◌*◌, Bool, true, false, not, ◌&&◌, Option, none, some, List, [], ◌∷◌, ◌++◌, map,
  length, u64, at, leb, ◌==◌, if◌then◌else◌,
}
use morello.Common.{size}
use morello.Memory.{MemoryLimits, standard, checked_sub_snap_down, discretize}
use morello.Layout.{Layout, contiguous_full}
use morello.Layout.Update.{FindPosition, take, drop}
use morello.Target.{Target}
use morello.TensorSpec.{TensorSpec, TensorSpecAux, product_u32, new_canon}
use morello.Spec.{
  PrimitiveBasics, matmul, conv, move_spec, zero_spec, input_count, output_idx, parameter_shapes,
}
use morello.Spec.Logical.{
  LogicalSpec, primitive, compose, Spec, parameters, inputs, output, logical_output_idx,
  serial_only,
}
use morello.Spec.Canonical.{spec_canonicalize, spec_is_canonical}
use morello.Views.{tensor_view, param_view}
use morello.Scheduling.{
  Action, tile_out, split, move, to_accum, peel, spatial_split, place, parallel_of, out_of_memory,
  spec_not_canonical, Attempt, applied, refused, panicked, ◌>>=◌, ◌>>◌, run, demand, refuse_if,
  unwrapped, SpecApp, ImplNode, pipe, block, kernel_app,
}
use morello.Scheduling.Tiles.{
  params_from, as_views, apply_tile_out, apply_split, apply_spatial_split,
}
use morello.Scheduling.Moves.{apply_move}

-- `LogicalSpec::clone_as_accum`.
unfoldable pub clone_as_accum : {Level : Type 0} → LogicalSpec Level → Attempt (LogicalSpec Level)
clone_as_accum (compose components auxes serial) = panicked
clone_as_accum (primitive basics auxes serial) = elim basics.typ [
  | matmul accum ↦ applied (primitive (record basics { typ = matmul true }) auxes serial)
  | conv accum ↦ applied (primitive (record basics { typ = conv true }) auxes serial)
  | move_spec ↦ panicked
  | zero_spec ↦ panicked
]

-- The guards of ToAccum.
unfoldable pub can_accumulate : {Level : Type 0} → LogicalSpec Level → Bool
can_accumulate (compose components auxes serial) = false
can_accumulate (primitive basics auxes serial) = elim basics.typ [
  | matmul accum ↦ not accum
  | conv accum ↦ not accum
  | move_spec ↦ false
  | zero_spec ↦ false
]

-- A range of a slice; a range that is out of order or out of bounds panics.
unfoldable pub slice : {A : Type 0} → ℕ → ℕ → List A → Attempt (List A)
slice start end xs =
    if leb start end && leb end (length xs)
    then applied (take (end - start) (drop start xs))
    else panicked

-- `Tgt::levels().map(..)`: the bytes on the level of the intermediate tensor.
unfoldable pub bytes_on : {Level : Type 0} → Target Level → Level → ℕ → List ℕ
bytes_on target level bytes =
    map (λ l. if target.same_level level l then bytes else 0) target.levels

unfoldable pub peeled_limits :
    {Level : Type 0} → Target Level → Level → ℕ → MemoryLimits → Attempt MemoryLimits
peeled_limits target level bytes (standard v) =
    elim (checked_sub_snap_down v (bytes_on target level bytes)) [
      | none ↦ refused out_of_memory
      | some w ↦ run (discretize (standard w))
    ]

module _ (find_position : FindPosition) {Level : Type 0} (target : Target Level) where
  -- A canonical Spec, of a Spec that the code expects to have one.
  unfoldable pub canonical_spec : LogicalSpec Level → MemoryLimits → Attempt (Spec Level)
  canonical_spec logical limits = unwrapped (
      spec_canonicalize find_position target.memory target.level_lt target.levels
        (record { logical = logical; limits = limits }))

  unfoldable pub zero_logical : TensorSpec Level → Bool → LogicalSpec Level
  zero_logical out serial =
      primitive (record { typ = zero_spec; spec_shape = out.shape; dtypes = out.dtype ∷ [] })
        (out.aux ∷ []) serial

  unfoldable pub apply_to_accum :
      {Kernel : Type 0} → Spec Level → List (TensorSpec Level) → Attempt (ImplNode Level Kernel)
  apply_to_accum spec operands = do
    demand (can_accumulate spec.logical)
    out ← run (output target.memory spec.logical)
    zero ← canonical_spec (zero_logical out (serial_only spec.logical)) spec.limits
    accum_logical ← clone_as_accum spec.logical
    accum ← canonical_spec accum_logical spec.limits
    applied (
        block
          (record { spec = zero; args = param_view (record { index = 0; spec = out }) ∷ [] }
            ∷ record { spec = accum; args = as_views (params_from 0 operands) }
            ∷ [])
          ((2 ∷ []) ∷ (0 ∷ 1 ∷ 2 ∷ []) ∷ []) operands spec)

  -- The tensor between the outermost two components.
  unfoldable pub intermediate_tensorspec :
      PrimitiveBasics → Layout → Level → Option ℕ → Attempt (TensorSpec Level)
  intermediate_tensorspec next_to_outer layout level vector_size = do
    shapes ← run (parameter_shapes next_to_outer)
    shape ← run (at shapes (output_idx next_to_outer.typ))
    dtype ← run (at next_to_outer.dtypes (output_idx next_to_outer.typ))
    contig ← run (contiguous_full layout)
    run (
        new_canon find_position target.memory shape dtype (record {
          contig = contig;
          aligned = true;
          level = level;
          layout = layout;
          vector_size = vector_size;
        }))

  -- What is left of the composition without its head, whose `external` inputs come first.
  unfoldable pub remainder_spec :
      List PrimitiveBasics
      → PrimitiveBasics
      → List (TensorSpecAux Level)
      → List (TensorSpec Level)
      → ℕ
      → TensorSpecAux Level
      → Bool
      → Attempt (LogicalSpec Level)
  remainder_spec components next_to_outer auxes operands external intermediate serial = do
    next_auxes ← slice external (external + input_count next_to_outer.typ) auxes
    if length components == 2
        then applied (primitive next_to_outer (next_auxes ++ intermediate ∷ []) serial)
        else (do
          demand (leb 1 (length next_auxes))
          remainder_inputs ← slice external (length next_auxes - 1) operands
          applied (
              compose (drop 1 components) (map (λ t. t.aux) remainder_inputs ++ intermediate ∷ [])
                serial))

  -- The stages of the pipeline. The arguments of the head are a `todo!()` for each operand but the
  -- first.
  unfoldable pub pipeline_stages :
      LogicalSpec Level
      → LogicalSpec Level
      → TensorSpec Level
      → MemoryLimits
      → Attempt (List (SpecApp Level))
  pipeline_stages remainder head intermediate limits = do
    ins ← run (inputs target.memory remainder)
    head_operands ← run (parameters target.memory head)
    head_args ← elim (drop 1 head_operands) [ [] ↦ applied [] | t ∷ rest ↦ panicked ]
    applied (
        record {
          spec = record { logical = remainder; limits = limits };
          args = as_views (params_from 0 ins) ++ tensor_view intermediate ∷ [];
        }
        ∷ record { spec = record { logical = head; limits = limits }; args = head_args }
        ∷ [])

  unfoldable pub peel_components :
      {Kernel : Type 0}
      → Layout
      → Level
      → Option ℕ
      → Spec Level
      → List (TensorSpec Level)
      → List PrimitiveBasics
      → List (TensorSpecAux Level)
      → Bool
      → Attempt (ImplNode Level Kernel)
  peel_components layout level vector_size spec operands components auxes serial = do
    demand (leb 2 (length components))
    head ← run (at components 0)
    next_to_outer ← run (at components 1)
    intermediate ← intermediate_tensorspec next_to_outer layout level vector_size
    demand (leb 1 (input_count head.typ))
    let external = input_count head.typ - 1
    head_auxes ← slice 0 external auxes
    out_idx ← run (logical_output_idx spec.logical)
    out_aux ← run (at auxes out_idx)
    let head_spec = primitive head (intermediate.aux ∷ head_auxes ++ out_aux ∷ []) serial
    remainder ←
        remainder_spec components next_to_outer auxes operands external intermediate.aux serial
    limits ←
        peeled_limits target level (u64 (size intermediate.dtype * product_u32 intermediate.shape))
          spec.limits
    stages ← pipeline_stages remainder head_spec intermediate limits
    applied (pipe (intermediate ∷ []) stages spec)

  unfoldable pub apply_peel :
      {Kernel : Type 0}
      → Layout
      → Level
      → Option ℕ
      → Spec Level
      → List (TensorSpec Level)
      → Attempt (ImplNode Level Kernel)
  apply_peel layout level vector_size spec operands = elim spec.logical [
    | primitive basics auxes serial ↦ panicked
    | compose components auxes serial ↦
        peel_components layout level vector_size spec operands components auxes serial
  ]

  unfoldable pub apply_case :
      {Kernel : Type 0}
      → Action Level Kernel
      → Spec Level
      → List (TensorSpec Level)
      → Attempt (ImplNode Level Kernel)
  apply_case (tile_out tileout) spec operands =
      apply_tile_out find_position target tileout (parallel_of tileout) spec operands
  apply_case (split k) spec operands = apply_split find_position target k spec operands
  apply_case (move dest) spec operands = apply_move find_position target dest spec operands
  apply_case to_accum spec operands = apply_to_accum spec operands
  apply_case (peel layout level vector_size) spec operands =
      apply_peel layout level vector_size spec operands
  apply_case spatial_split spec operands = apply_spatial_split find_position target spec operands
  apply_case (place k) spec operands = applied (kernel_app k (params_from 0 operands) spec)

  -- `Action::apply`.
  unfoldable pub apply :
      {Kernel : Type 0} → Action Level Kernel → Spec Level → Attempt (ImplNode Level Kernel)
  apply action spec = do
    canonical ←
        run (spec_is_canonical find_position target.memory target.level_lt target.levels spec)
    refuse_if (not canonical) spec_not_canonical
    operands ← run (parameters target.memory spec.logical)
    apply_case action spec operands
