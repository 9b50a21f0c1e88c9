-- ===== src/Scheduling/Copies.antt =====
-- morello/src/scheduling.rs: what a Move applies to, and in which order.
use morello.Base.{
  ℕ, ◌≡◌, refl, ap, ap₂, ◌∙◌, sym, subst, Bool, true, false, not, List, ◌∷◌, ◌++◌, set, length, u64,
  ◌*◌, at, Bool-cases, done_eq, ◌-◌, ◌==◌, leb, ◌&&◌, ◌||◌, inl, inr, Option, Outcome,
}
use morello.Common.{size}
use morello.Memory.{MemoryLimits}
use morello.Layout.{contiguous_full}
use morello.Layout.Update.{FindPosition}
use morello.Target.{Target}
use morello.TensorSpec.{TensorSpec, volume}
use morello.TensorSpec.Squeeze.{IsKept, new_canon-IsKept}
use morello.Spec.Logical.{
  LogicalSpec, Spec, parameters, serial_only, logical_output_is_read, logical_operand_count,
}
use morello.Spec.Canonical.{spec_is_canonical}
use morello.Scheduling.{
  Destination, move, applied, SpecApp, ImplNode, introduced_spec, move_let, loop, pipe, block,
  kernel_app, spec_not_canonical,
}
use morello.Scheduling.Attempts.{
  >>=-eq-applied, run-bind, run-eq, demand-bind, refuse_if-bind, applied_eq,
}
use morello.Scheduling.Moves.{
  listed, move_is_cache_miss, move_let_new, move_gens_prologue, move_gens_epilogue, lower_limits,
  movelet_inner_tensorspec, make_logue, introduced_operand, moved_body, make_move, check_move,
  apply_move,
}
use morello.Scheduling.Apply.{apply, apply_case}
use morello.Scheduling.Stages.{
  operands_of, IsCopy, IsOver, IfWanted, make_logue-IfWanted, moved_body-IsOver,
}

-- A node that copies its source in, runs a body on the copy, and copies it out: each copy only if
-- it is asked for.
abbrev pub CopiesAround :
    {Level Kernel : Type 0}
    → Target Level
    → Destination Level
    → LogicalSpec Level
    → List (TensorSpec Level)
    → TensorSpec Level
    → TensorSpec Level
    → Bool
    → Bool
    → ImplNode Level Kernel
    → Type 0
CopiesAround {Level} target dest logical operands outer inner reads writes (move_let m) =
    (copy_in : Option (SpecApp Level)) × (body : SpecApp Level) × (copy_out : Option
      (SpecApp Level))
    × (m.children ≡ listed copy_in ++ body ∷ listed copy_out)
    × IfWanted (IsCopy outer inner (serial_only logical)) reads copy_in
    × (operands_of body ≡ set operands dest.source_idx inner)
    × IsOver target logical (set operands dest.source_idx inner) body.spec.logical
    × IfWanted (IsCopy inner outer (serial_only logical)) writes copy_out
    × (introduced_spec m.introduced ≡ inner)
    × (m.has_prologue ≡ reads)
    × (m.has_epilogue ≡ writes)
CopiesAround target dest logical operands outer inner reads writes (loop _ _ _ _) = ⊥
CopiesAround target dest logical operands outer inner reads writes (pipe _ _ _) = ⊥
CopiesAround target dest logical operands outer inner reads writes (block _ _ _ _) = ⊥
CopiesAround target dest logical operands outer inner reads writes (kernel_app _ _ _) = ⊥

module _ (find_position : FindPosition) {Level : Type 0} (target : Target Level) where
  movelet_inner_tensorspec-IsKept :
      (operand : TensorSpec Level) (dest : Destination Level) {t : TensorSpec Level}
      → movelet_inner_tensorspec find_position target operand dest ≡ applied t
      → IsKept t operand.shape dest.dtype dest.level
  unfolding movelet_inner_tensorspec
  movelet_inner_tensorspec-IsKept operand dest h =
      let (full, _, h1) = run-bind (contiguous_full dest.layout) _ h in
      new_canon-IsKept find_position target.memory operand.shape dest.dtype _ (run-eq _ h1)

  introduced_operand-spec :
      (operand inner : TensorSpec Level) (dest : Destination Level)
      → introduced_spec (introduced_operand find_position target operand inner dest) ≡ inner
  unfolding introduced_spec introduced_operand
  introduced_operand-spec operand inner dest =
      elim (Bool-cases (move_is_cache_miss target operand dest)) [
        | inl miss ↦ rw miss refl
        | inr other ↦ rw other refl
      ]

  make_move-CopiesAround :
      {Kernel : Type 0} (dest : Destination Level) (spec : Spec Level)
      (operands : List (TensorSpec Level)) (outer inner : TensorSpec Level) (limits : MemoryLimits)
      {node : ImplNode Level Kernel}
      → make_move find_position target dest spec operands outer inner limits ≡ applied node
      → (reads : Bool) × (writes : Bool) × (move_gens_prologue target dest spec.logical
          ≡ applied reads)
        × (move_gens_epilogue target dest spec.logical ≡ applied writes)
        × CopiesAround target dest spec.logical operands outer inner reads writes node
  unfolding make_move move_let_new
  make_move-CopiesAround {Kernel} dest spec operands outer inner limits {node} h =
      let (reads, e_reads, h1) = >>=-eq-applied (move_gens_prologue target dest spec.logical) _ h in
      let serial = serial_only spec.logical in
      let (prologue, e_pro, h2) =
        >>=-eq-applied (make_logue find_position target false reads outer inner serial limits) _
          h1 in
      let (writes, e_writes, h3) =
        >>=-eq-applied (move_gens_epilogue target dest spec.logical) _ h2 in
      let (epilogue, e_epi, h4) =
        >>=-eq-applied (make_logue find_position target true writes outer inner serial limits) _
          h3 in
      let (body, e_body, h5) =
        >>=-eq-applied (moved_body find_position target spec operands dest.source_idx inner limits)
          _ h4 in
      let (pro, has_pro) =
        make_logue-IfWanted find_position target false reads outer inner serial limits e_pro in
      let (epi, has_epi) =
        make_logue-IfWanted find_position target true writes outer inner serial limits e_epi in
      let (args, over) =
        moved_body-IsOver find_position target spec operands dest.source_idx inner limits e_body in
      (
        reads,
        writes,
        e_reads,
        e_writes,
        subst (CopiesAround target dest spec.logical operands outer inner reads writes)
            (applied_eq h5)
            (
              prologue,
              body,
              epilogue,
              refl,
              pro,
              args,
              over,
              epi,
              introduced_operand-spec outer inner dest,
              has_pro,
              has_epi,
            ),
      )

  module _ (dest : Destination Level) (logical : LogicalSpec Level)
      {operands : List (TensorSpec Level)} {outer : TensorSpec Level}
      (found : parameters target.memory logical ≡ Outcome.done operands)
      (source : at operands dest.source_idx ≡ Outcome.done outer) where
    move_gens_prologue-eq :
        {reads : Bool}
        → move_gens_prologue target dest logical ≡ applied reads
        → (read : Bool) × (logical_output_is_read logical ≡ Outcome.done read)
          × (reads ≡ (
              (not (dest.source_idx == length operands - 1) || read)
              && not (move_is_cache_miss target outer dest)))
    unfolding move_gens_prologue
    move_gens_prologue-eq h =
        let (ps, e, h1) = run-bind (parameters target.memory logical) _ h in
        let (_, h2) = demand-bind (leb 1 (length ps)) _ h1 in
        let (read, f, h3) = run-bind (logical_output_is_read logical) _ h2 in
        let (t, g, h4) = run-bind (at ps dest.source_idx) _ h3 in
        let ps_eq = done_eq (sym e ∙ found) in
        let t_eq = done_eq (sym g ∙ ap (λ ts. at ts dest.source_idx) ps_eq ∙ source) in
        (
          read,
          f,
          sym (applied_eq h4)
              ∙ ap₂
                  (λ ts t.
                    (not (dest.source_idx == length ts - 1) || read)
                    && not (move_is_cache_miss target t dest))
                  ps_eq t_eq,
        )

    move_gens_epilogue-eq :
        {writes : Bool}
        → move_gens_epilogue target dest logical ≡ applied writes
        → (n : ℕ) × (logical_operand_count logical ≡ Outcome.done n)
          × (writes ≡ (dest.source_idx == n - 1 && not (move_is_cache_miss target outer dest)))
    unfolding move_gens_epilogue
    move_gens_epilogue-eq h =
        let (ps, e, h1) = run-bind (parameters target.memory logical) _ h in
        let (n, f, h2) = run-bind (logical_operand_count logical) _ h1 in
        let (_, h3) = demand-bind (leb 1 n) _ h2 in
        let (t, g, h4) = run-bind (at ps dest.source_idx) _ h3 in
        let ps_eq = done_eq (sym e ∙ found) in
        let t_eq = done_eq (sym g ∙ ap (λ ts. at ts dest.source_idx) ps_eq ∙ source) in
        (
          n,
          f,
          sym (applied_eq h4)
              ∙ ap (λ t. dest.source_idx == n - 1 && not (move_is_cache_miss target t dest)) t_eq,
        )

  -- Where a Move applies to a Spec, the Spec is primitive, and the Move introduces a tensor of the
  -- moved operand's shape, with the element type and at the level of the destination. Its children
  -- are, in this order: a Move Spec from the operand to that tensor, unless the operand is an output
  -- that is not read or the move is a simple cache miss; the body; and a Move Spec from the tensor to
  -- the operand, if the operand is the output and the move is no simple cache miss. A Move Spec has
  -- the shape of its tensors, the element types and levels of both, and them as arguments. The body
  -- has the type of the Spec, and its arguments are the Spec's operands with the tensor in the place
  -- of the moved one: it is a Spec over operands of their shapes, element types and levels. All are
  -- serial exactly if the Spec is.
  pub apply-move :
      {Kernel : Type 0} (dest : Destination Level) (spec : Spec Level)
      {node : ImplNode Level Kernel}
      → apply find_position target (move dest) spec ≡ applied node
      → (operands : List (TensorSpec Level)) × (outer : TensorSpec Level) × (inner : TensorSpec
          Level)
        × (read reads : Bool) × (n : ℕ) × (writes : Bool) × (parameters target.memory spec.logical
            ≡ Outcome.done operands)
        × (at operands dest.source_idx ≡ Outcome.done outer)
        × IsKept inner outer.shape dest.dtype dest.level
        × (logical_output_is_read spec.logical ≡ Outcome.done read)
        × (logical_operand_count spec.logical ≡ Outcome.done n)
        × (reads ≡ (
            (not (dest.source_idx == length operands - 1) || read)
            && not (move_is_cache_miss target outer dest)))
        × (writes ≡ (dest.source_idx == n - 1 && not (move_is_cache_miss target outer dest)))
        × CopiesAround target dest spec.logical operands outer inner reads writes node
  unfolding apply apply_case apply_move
  apply-move dest spec h =
      let (c, _, h1) =
        run-bind (spec_is_canonical find_position target.memory target.level_lt target.levels spec)
          _ h in
      let (_, h2) = refuse_if-bind (not c) spec_not_canonical _ h1 in
      let (operands, e_ops, h3) = run-bind (parameters target.memory spec.logical) _ h2 in
      let (outer, e_outer, h4) = run-bind (at operands dest.source_idx) _ h3 in
      let (inner, e_inner, h5) =
        >>=-eq-applied (movelet_inner_tensorspec find_position target outer dest) _ h4 in
      let (_, _, h6) = >>=-eq-applied (check_move find_position target dest outer inner) _ h5 in
      let (v, _, h7) = run-bind (volume outer.shape) _ h6 in
      let (limits, _, h8) =
        >>=-eq-applied (lower_limits target dest (u64 (size dest.dtype * v)) spec.limits) _ h7 in
      let (reads, writes, e_reads, e_writes, copies) =
        make_move-CopiesAround dest spec operands outer inner limits h8 in
      let (read, e_read, reads_eq) =
        move_gens_prologue-eq dest spec.logical e_ops e_outer e_reads in
      let (n, e_n, writes_eq) = move_gens_epilogue-eq dest spec.logical e_ops e_outer e_writes in
      (
        operands,
        outer,
        inner,
        read,
        reads,
        n,
        writes,
        e_ops,
        e_outer,
        movelet_inner_tensorspec-IsKept outer dest e_inner,
        e_read,
        e_n,
        reads_eq,
        writes_eq,
        copies,
      )
