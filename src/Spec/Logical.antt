-- ===== src/Spec/Logical.antt =====
-- morello/src/spec.rs, `LogicalSpec` and `Spec`: a Spec with its operands' memory, and compositions
-- of Specs, of which the last component is applied first.
--
-- `todo!()` panics. The debug assertions panic, and so does a `usize` that would fall below zero.
use mathlib.Core.List.{reverse}
use morello.Base.{
  ℕ, zero, suc, ◌+◌, ◌-◌, ◌*◌, Bool, true, false, Option, none, some, List, [], ◌∷◌, ◌++◌, map,
  length, leb, ltb, ◌==◌, if◌then◌else◌, u64, Outcome, done, panic, ◌>>=◌, ◌>>◌, assert, at,
}
use morello.Memory.{MemoryLimits}
use morello.Target.{MemoryLevel}
use morello.TensorSpec.{TensorSpec, TensorSpecAux, new_noncanon_with_aux}
use morello.Spec.{
  PrimitiveBasics, matmul, conv, move_spec, zero_spec, operand_count, Operand, zip_operands,
  output_idx, output_is_read, parameter_shapes,
}

pub data LogicalSpec (Level : Type 0) : Type 0 where
  primitive : PrimitiveBasics → List (TensorSpecAux Level) → Bool → LogicalSpec Level
  compose : List PrimitiveBasics → List (TensorSpecAux Level) → Bool → LogicalSpec Level

pub record Spec (Level : Type 0) : Type 0 where
  pub logical : LogicalSpec Level
  pub limits : MemoryLimits

-- `pop` without its result, and its result.
abbrev pub popped {ℓ} : {A : Type ℓ} → List A → List A
popped [] = []
popped (x ∷ []) = []
popped (x ∷ y ∷ xs) = x ∷ popped (y ∷ xs)

abbrev pub last {ℓ} : {A : Type ℓ} → List A → Option A
last [] = none
last (x ∷ []) = some x
last (x ∷ y ∷ xs) = last (y ∷ xs)

unfoldable pub compose_operand_count : List PrimitiveBasics → Outcome ℕ
compose_operand_count [] = panic
compose_operand_count (c ∷ []) = done (operand_count c.typ)
compose_operand_count (c ∷ d ∷ components) = do
  assert (leb 2 (operand_count c.typ))
  n ← compose_operand_count (d ∷ components)
  done (n + (operand_count c.typ - 2))

-- The loop of `parameters` over the components, the last one first; `result` is in reverse.
unfoldable pub compose_loop :
    Bool
    → List PrimitiveBasics
    → List Operand
    → Option Operand
    → Outcome (List Operand × Option Operand)
compose_loop first [] result last_seen_output = done (result, last_seen_output)
compose_loop first (c ∷ components) result last_seen_output = parameter_shapes c >>= λ shapes.
    elim (last (zip_operands shapes c.dtypes)) [
      | none ↦ panic
      | some output ↦
          compose_loop false components
            (result
              ++ (if first
                  then reverse (popped (zip_operands shapes c.dtypes))
                  else popped (reverse (popped (zip_operands shapes c.dtypes)))))
            (some output)
    ]

unfoldable pub compose_operands : List PrimitiveBasics → Outcome (List Operand)
compose_operands components = do
  capacity ← compose_operand_count components
  r ← compose_loop true (reverse components) [] none
  elim r.1 [ none ↦ panic | some output ↦ done (reverse r.0 ++ output ∷ []) ]

unfoldable pub matmul_flops : List ℕ → Outcome (Option ℕ)
matmul_flops (m ∷ k ∷ n ∷ []) = done (some (u64 (u64 (u64 (2 * m) * k) * n)))
matmul_flops _ = panic

module _ {Level : Type 0} where
  unfoldable pub serial_only : LogicalSpec Level → Bool
  serial_only (primitive basics auxes serial) = serial
  serial_only (compose components auxes serial) = serial

  unfoldable pub set_serial_only : LogicalSpec Level → Bool → LogicalSpec Level
  set_serial_only (primitive basics auxes _) serial = primitive basics auxes serial
  set_serial_only (compose components auxes _) serial = compose components auxes serial

  unfoldable pub logical_operand_count : LogicalSpec Level → Outcome ℕ
  logical_operand_count (primitive basics auxes serial) = done (operand_count basics.typ)
  logical_operand_count (compose components auxes serial) = compose_operand_count components

  unfoldable pub logical_output_idx : LogicalSpec Level → Outcome ℕ
  logical_output_idx (primitive basics auxes serial) = done (output_idx basics.typ)
  logical_output_idx (compose components auxes serial) = do
    n ← compose_operand_count components
    assert (leb 1 n)
    done (n - 1)

  unfoldable pub logical_output_is_read : LogicalSpec Level → Outcome Bool
  logical_output_is_read (primitive basics auxes serial) = done (output_is_read basics.typ)
  logical_output_is_read (compose components auxes serial) = do
    c ← at components 0
    done (output_is_read c.typ)

  unfoldable pub flops : Spec Level → Outcome (Option ℕ)
  flops spec = elim spec.logical [
    | compose components auxes serial ↦ done none
    | primitive basics auxes serial ↦ elim basics.typ [
      | matmul accum ↦ matmul_flops basics.spec_shape
      | conv accum ↦ done none
      | move_spec ↦ done none
      | zero_spec ↦ done none
    ]
  ]

module _ {Level : Type 0} (memory : MemoryLevel Level) where
  -- The zip of the operands with their auxiliary parts.
  unfoldable pub with_auxes :
      List Operand → List (TensorSpecAux Level) → Outcome (List (TensorSpec Level))
  with_auxes ((shape, dtype) ∷ operands) (aux ∷ auxes) = do
    t ← new_noncanon_with_aux memory shape dtype aux
    rest ← with_auxes operands auxes
    done (t ∷ rest)
  with_auxes _ _ = done []

  unfoldable pub parameters : LogicalSpec Level → Outcome (List (TensorSpec Level))
  parameters (primitive basics auxes serial) = elim basics.typ [
    | matmul accum ↦
        parameter_shapes basics >>= λ shapes. with_auxes (zip_operands shapes basics.dtypes) auxes
    | conv accum ↦
        parameter_shapes basics >>= λ shapes. with_auxes (zip_operands shapes basics.dtypes) auxes
    | move_spec ↦ with_auxes (map (λ t. (basics.spec_shape, t)) basics.dtypes) auxes
    | zero_spec ↦ with_auxes (map (λ t. (basics.spec_shape, t)) basics.dtypes) auxes
  ]
  parameters (compose components auxes serial) = do
    operands ← compose_operands components
    assert (length operands == length auxes)
    with_auxes operands auxes

  -- `inputs` and `output`.
  unfoldable pub without : ℕ → List (TensorSpec Level) → List (TensorSpec Level)
  without i [] = []
  without zero (t ∷ operands) = operands
  without (suc i) (t ∷ operands) = t ∷ without i operands

  unfoldable pub inputs : LogicalSpec Level → Outcome (List (TensorSpec Level))
  inputs spec = do
    operands ← parameters spec
    idx ← logical_output_idx spec
    assert (ltb idx (length operands))
    done (without idx operands)

  unfoldable pub output : LogicalSpec Level → Outcome (TensorSpec Level)
  output spec = do operands ← parameters spec; idx ← logical_output_idx spec; at operands idx

abbrev pub operand_of : {Level : Type 0} → TensorSpec Level → Operand
operand_of t = (t.shape, t.dtype)
