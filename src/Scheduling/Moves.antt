-- ===== src/Scheduling/Moves.antt =====
-- morello/src/scheduling.rs, the case of `Action::apply` that moves an operand to another level, with
-- `MoveLet::new` of morello/src/imp/moves.rs.
use morello.Base.{
  ℕ, ◌+◌, ◌-◌, ◌*◌, Bool, true, false, not, ◌&&◌, ◌||◌, Option, none, some, List, [], ◌∷◌, ◌++◌,
  length, set, u64, at, ltb, leb, ◌==◌, if◌then◌else◌, Outcome,
}
use morello.Common.{size}
use morello.Utils.Bits.{prev_power_of_two}
use morello.Memory.{MemoryLimits, standard, get_unscaled, set_unscaled}
use morello.Layout.{contiguous_full, applies_to_shape}
use morello.Layout.Update.{FindPosition}
use morello.Target.{Target}
use morello.TensorSpec.{TensorSpec, same_layout, new_canon, volume}
use morello.Spec.{move_spec}
use morello.Spec.Logical.{
  LogicalSpec, primitive, Spec, parameters, logical_operand_count, logical_output_is_read,
  serial_only, last,
}
use morello.Spec.Replace.{same_dtype, logical_replace_io}
use morello.Spec.Canonical.{spec_canonicalize}
use morello.Views.{Param}
use morello.Scheduling.{
  Destination, self_move, action_not_applicable, out_of_memory, Attempt, applied, refused, panicked,
  ◌>>=◌, ◌>>◌, run, demand, refuse_if, unwrapped, SpecApp, Introduced, new_tensor, new_cache_view,
  MoveLet, ImplNode, move_let, same_tensor_spec,
}
use morello.Scheduling.Tiles.{params_from, as_views}

-- The levels' `position`.
unfoldable pub level_position : {Level : Type 0} → (Level → Bool) → List Level → Option ℕ
level_position test [] = none
level_position test (l ∷ levels) =
    let rest = level_position test levels in
    if test l then some 0 else elim rest [ none ↦ none | some i ↦ some (i + 1) ]

abbrev pub listed {ℓ} : {A : Type ℓ} → Option A → List A
listed none = []
listed (some a) = a ∷ []

abbrev pub is_some {ℓ} : {A : Type ℓ} → Option A → Bool
is_some none = false
is_some (some _) = true

module _ {Level : Type 0} where
  unfoldable pub move_let_new :
      ℕ
      → TensorSpec Level
      → Introduced Level
      → Option (SpecApp Level)
      → SpecApp Level
      → Option (SpecApp Level)
      → Spec Level
      → MoveLet Level
  move_let_new parameter_idx source_spec introduced prologue main_stage epilogue spec = record {
    parameter_idx = parameter_idx;
    source_spec = source_spec;
    introduced = introduced;
    has_prologue = is_some prologue;
    has_epilogue = is_some epilogue;
    children = listed prologue ++ main_stage ∷ listed epilogue;
    spec = spec;
  }

  unfoldable pub prologue_of : MoveLet Level → Outcome (Option (SpecApp Level))
  prologue_of m =
      if m.has_prologue
      then elim (at m.children 0) [
        | Outcome.done c ↦ Outcome.done (some c)
        | Outcome.panic ↦ Outcome.panic
      ]
      else Outcome.done none

  unfoldable pub main_stage_of : MoveLet Level → Outcome (SpecApp Level)
  main_stage_of m = if m.has_prologue then at m.children 1 else at m.children 0

  unfoldable pub epilogue_of : MoveLet Level → Option (SpecApp Level)
  epilogue_of m = if m.has_epilogue then last m.children else none

module _ {Level : Type 0} (target : Target Level) where
  unfoldable pub move_is_cache_miss : TensorSpec Level → Destination Level → Bool
  move_is_cache_miss operand dest =
      not (target.memory.is_addressed dest.level)
      && same_layout operand.aux.layout dest.layout
      && same_dtype operand.dtype dest.dtype

  unfoldable pub move_gens_prologue : Destination Level → LogicalSpec Level → Attempt Bool
  move_gens_prologue dest logical = do
    ps ← run (parameters target.memory logical)
    demand (leb 1 (length ps))
    let is_output = dest.source_idx == length ps - 1
    reads ← run (logical_output_is_read logical)
    operand ← run (at ps dest.source_idx)
    applied ((not is_output || reads) && not (move_is_cache_miss operand dest))

  unfoldable pub move_gens_epilogue : Destination Level → LogicalSpec Level → Attempt Bool
  move_gens_epilogue dest logical = do
    ps ← run (parameters target.memory logical)
    n ← run (logical_operand_count logical)
    demand (leb 1 n)
    operand ← run (at ps dest.source_idx)
    applied (dest.source_idx == n - 1 && not (move_is_cache_miss operand dest))

  -- The limits of the children: what the destination has left, rounded down to a power of two.
  unfoldable pub lower_limits : Destination Level → ℕ → MemoryLimits → Attempt MemoryLimits
  lower_limits dest additional (standard base) =
      elim (level_position (λ l. target.same_level l dest.level) target.levels) [
        | none ↦ panicked
        | some i ↦ run (get_unscaled base i) >>= λ current.
            if ltb current additional then refused out_of_memory else (do
              v ← run (set_unscaled base i (prev_power_of_two (current - additional)))
              applied (standard v))
      ]

module _ (find_position : FindPosition) {Level : Type 0} (target : Target Level) where
  unfoldable pub movelet_inner_tensorspec :
      TensorSpec Level → Destination Level → Attempt (TensorSpec Level)
  movelet_inner_tensorspec operand dest = do
    full ← run (contiguous_full dest.layout)
    let miss = move_is_cache_miss target operand dest
    run (
        new_canon find_position target.memory operand.shape dest.dtype (record {
          contig = if miss then operand.aux.contig else full;
          aligned = if miss then operand.aux.aligned else true;
          level = dest.level;
          layout = dest.layout;
          vector_size = dest.vector_size;
        }))

  -- `make_logue`, once its test holds: a Move from `left` to `right`.
  unfoldable pub logue_app :
      TensorSpec Level
      → TensorSpec Level
      → List (Param Level)
      → Bool
      → MemoryLimits
      → Attempt (SpecApp Level)
  logue_app left right args serial limits = do
    spec ← unwrapped (
        spec_canonicalize find_position target.memory target.level_lt target.levels (record {
          logical =
              primitive
                (record {
                  typ = move_spec;
                  spec_shape = left.shape;
                  dtypes = left.dtype ∷ right.dtype ∷ [];
                })
                (left.aux ∷ right.aux ∷ []) serial;
          limits = limits;
        }))
    applied (record { spec = spec; args = as_views args })

  unfoldable pub make_logue :
      Bool
      → Bool
      → TensorSpec Level
      → TensorSpec Level
      → Bool
      → MemoryLimits
      → Attempt (Option (SpecApp Level))
  make_logue flip false outer inner serial limits = applied none
  make_logue false true outer inner serial limits = do
    app ← logue_app outer inner (params_from 0 (outer ∷ inner ∷ [])) serial limits
    applied (some app)
  make_logue true true outer inner serial limits = do
    app ←
        logue_app inner outer
          (record { index = 1; spec = inner } ∷ record { index = 0; spec = outer } ∷ []) serial
          limits
    applied (some app)

  unfoldable pub introduced_operand :
      TensorSpec Level → TensorSpec Level → Destination Level → Introduced Level
  introduced_operand operand new_spec dest =
      if move_is_cache_miss target operand dest
      then new_cache_view (record { index = dest.source_idx; spec = operand }) new_spec
      else new_tensor new_spec

  -- The body, with the moved operand in place of the original.
  unfoldable pub moved_body :
      Spec Level
      → List (TensorSpec Level)
      → ℕ
      → TensorSpec Level
      → MemoryLimits
      → Attempt (SpecApp Level)
  moved_body spec operands idx inner limits = do
    let new_operands = set operands idx inner
    logical ←
        run (logical_replace_io target.memory (same_tensor_spec target) spec.logical new_operands)
    canonical ← unwrapped (
        spec_canonicalize find_position target.memory target.level_lt target.levels
          (record { logical = logical; limits = limits }))
    applied (record { spec = canonical; args = as_views (params_from 0 new_operands) })

  -- The node of a Move, from the new tensor and the children's limits on.
  unfoldable pub make_move :
      {Kernel : Type 0}
      → Destination Level
      → Spec Level
      → List (TensorSpec Level)
      → TensorSpec Level
      → TensorSpec Level
      → MemoryLimits
      → Attempt (ImplNode Level Kernel)
  make_move dest spec operands outer new_spec limits = do
    reads ← move_gens_prologue target dest spec.logical
    prologue ← make_logue false reads outer new_spec (serial_only spec.logical) limits
    writes ← move_gens_epilogue target dest spec.logical
    epilogue ← make_logue true writes outer new_spec (serial_only spec.logical) limits
    body ← moved_body spec operands dest.source_idx new_spec limits
    applied (
        move_let (
          move_let_new dest.source_idx outer (introduced_operand outer new_spec dest) prologue body
            epilogue spec))

  -- The layout must apply to the new tensor, and the tensor must differ from the moved operand.
  unfoldable pub check_move :
      Destination Level → TensorSpec Level → TensorSpec Level → Attempt (Unit {0})
  check_move dest outer new_spec = do
    fits ← run (applies_to_shape dest.layout new_spec.shape)
    demand fits
    refuse_if (same_tensor_spec target outer new_spec) (action_not_applicable self_move)

  unfoldable pub apply_move :
      {Kernel : Type 0}
      → Destination Level
      → Spec Level
      → List (TensorSpec Level)
      → Attempt (ImplNode Level Kernel)
  apply_move dest spec operands = do
    outer ← run (at operands dest.source_idx)
    new_spec ← movelet_inner_tensorspec outer dest
    check_move dest outer new_spec
    v ← run (volume outer.shape)
    limits ← lower_limits target dest (u64 (size dest.dtype * v)) spec.limits
    make_move dest spec operands outer new_spec limits
