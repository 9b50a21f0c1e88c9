-- ===== src/Spec/Replace.antt =====
-- morello/src/spec.rs, `LogicalSpec::replace_io`: a Spec with other operands.
use mathlib.Core.List.{reverse}
use morello.Base.{
  ℕ, suc, ◌-◌, ◌≡◌, refl, ap, ◌∙◌, sym, Bool, true, false, ◌&&◌, Option, some, List, [], ◌∷◌, ◌++◌,
  map, length, length-map, leb, ◌==◌, ==-true, Outcome, done, ◌>>=◌, ◌>>◌, >>=-eq-done, done_eq,
  assert, assert-done, at, arith,
}
use morello.Common.{Dtype, dtype_apply}
use morello.Layout.Update.{take, drop, same_shape}
use morello.Target.{MemoryLevel}
use morello.TensorSpec.{TensorSpec, TensorSpecAux, new_noncanon_with_aux}
use morello.Spec.{
  Operand, zip_operands, PrimitiveSpecType, PrimitiveBasics, matmul, conv, move_spec, zero_spec,
  input_count, operand_count, output_idx, infer_output_shape, parameter_shapes, replace_io,
}
use morello.Spec.Inference.{replace_io-parameter_shapes}
use morello.Spec.Logical.{
  LogicalSpec, primitive, compose, last, popped, logical_operand_count, with_auxes, parameters,
  operand_of,
}

-- The loop over the components, the last one first: the operands still to take, those of the next
-- component that are known, and the components done.
unfoldable pub replace_loop :
    List PrimitiveBasics
    → List Operand
    → List Operand
    → List PrimitiveBasics
    → Outcome (List PrimitiveBasics × List Operand)
replace_loop [] remaining_inputs component_inputs built = done (built, component_inputs)
replace_loop (c ∷ components) remaining_inputs component_inputs built = do
  assert (leb (length component_inputs) (input_count c.typ))
  let needed = input_count c.typ - length component_inputs
  assert (leb needed (length remaining_inputs))
  let kept = length remaining_inputs - needed
  let all_inputs = component_inputs ++ drop kept remaining_inputs
  new_output_shape ← infer_output_shape c.typ (map (λ o. o.0) all_inputs)
  dtype ← at c.dtypes (output_idx c.typ)
  replaced ← replace_io c (all_inputs ++ (new_output_shape, dtype) ∷ [])
  replace_loop components (take kept remaining_inputs) ((new_output_shape, dtype) ∷ [])
      (replaced ∷ built)

abbrev pub same_dtype : Dtype → Dtype → Bool
same_dtype a b = dtype_apply a == dtype_apply b

-- The assertions after the loop: what is left is the operand given for the output.
unfoldable pub output_matches : List Operand → Option Operand → Bool
output_matches (inferred ∷ []) (some output) =
    same_shape output.0 inferred.0 && same_dtype inferred.1 output.1
output_matches _ _ = false

unfoldable pub replace_components :
    List PrimitiveBasics → List Operand → Outcome (List PrimitiveBasics)
replace_components components new_operands = do
  r ← replace_loop (reverse components) (popped new_operands) [] []
  assert (output_matches r.1 (last new_operands))
  done r.0

-- The zip of the last assertion, with the equality of `TensorSpec`s.
unfoldable pub all_same : {A : Type 0} → (A → A → Bool) → List A → List A → Bool
all_same same (a ∷ xs) (b ∷ ys) = same a b && all_same same xs ys
all_same same _ _ = true

module _ {Level : Type 0} (memory : MemoryLevel Level)
    (same : TensorSpec Level → TensorSpec Level → Bool) where
  unfoldable pub replaced_spec :
      LogicalSpec Level → List (TensorSpec Level) → Outcome (LogicalSpec Level)
  replaced_spec (primitive basics auxes serial) new_operands = do
    b ← replace_io basics (map operand_of new_operands)
    assert (length auxes == length new_operands)
    done (primitive b (map (λ t. t.aux) new_operands) serial)
  replaced_spec (compose components auxes serial) new_operands = do
    assert (leb 1 (length new_operands))
    cs ← replace_components components (map operand_of new_operands)
    done (compose cs (map (λ t. t.aux) new_operands) serial)

  unfoldable pub logical_replace_io :
      LogicalSpec Level → List (TensorSpec Level) → Outcome (LogicalSpec Level)
  logical_replace_io spec new_operands = do
    n ← logical_operand_count spec
    assert (length new_operands == n)
    new ← replaced_spec spec new_operands
    operands ← parameters memory new
    assert (all_same same operands new_operands)
    done new

all_same_refl :
    {A : Type 0} (same : A → A → Bool)
    → ((a : A) → same a a ≡ true)
    → (xs : List A) → all_same same xs xs ≡ true
unfolding all_same
all_same_refl same r [] = refl
all_same_refl same r (x ∷ xs) = rw (r x) (all_same_refl same r xs)

module _ {Level : Type 0} (memory : MemoryLevel Level) where
  pub new_noncanon-eq :
      (shape : List ℕ) (dtype : Dtype) (aux : TensorSpecAux Level) {t : TensorSpec Level}
      → new_noncanon_with_aux memory shape dtype aux ≡ done t
      → record { shape = shape; dtype = dtype; aux = aux } ≡ t
  unfolding new_noncanon_with_aux
  new_noncanon-eq shape dtype aux h = done_eq (assert-done _ _ (assert-done _ _ h).1).1

  -- The operands are the shapes, the element types and the auxiliary parts that were zipped.
  pub with_auxes-parts :
      (operands : List Operand) (auxes : List (TensorSpecAux Level)) {ts : List (TensorSpec Level)}
      → length operands ≡ length auxes
      → with_auxes memory operands auxes ≡ done ts
      → (map operand_of ts ≡ operands) × (map (λ t. t.aux) ts ≡ auxes)
  unfolding with_auxes
  with_auxes-parts [] [] n h = rw (sym (done_eq h)) (refl, refl)
  with_auxes-parts [] (a ∷ auxes) n h = absurd (omega arith)
  with_auxes-parts (o ∷ operands) [] n h = absurd (omega arith)
  with_auxes-parts ((s, d) ∷ operands) (a ∷ auxes) n h =
      let (t, e, h1) = >>=-eq-done (new_noncanon_with_aux memory s d a) _ h in
      let (rest, f, h2) = >>=-eq-done (with_auxes memory operands auxes) _ h1 in
      let (o_eq, a_eq) = with_auxes-parts operands auxes (omega arith) f in
      let t_eq = new_noncanon-eq s d a e in
      rw (sym (done_eq h2), o_eq, a_eq)
        (
          ap (λ (t : TensorSpec Level). operand_of t ∷ operands) (sym t_eq),
          ap (λ (t : TensorSpec Level). t.aux ∷ auxes) (sym t_eq),
        )

  pub parameters-zip :
      (typ : PrimitiveSpecType) (shape : List ℕ) (ts : List Dtype)
      (auxes : List (TensorSpecAux Level)) (serial : Bool)
      → length ts ≡ operand_count typ
      → parameters memory
          (primitive (record { typ = typ; spec_shape = shape; dtypes = ts }) auxes serial)
        ≡ (parameter_shapes (record { typ = typ; spec_shape = shape; dtypes = ts }) >>= λ shapes.
            with_auxes memory (zip_operands shapes ts) auxes)
  unfolding parameters parameter_shapes operand_count input_count
  parameters-zip (matmul accum) shape ts auxes serial n = refl
  parameters-zip (conv accum) shape ts auxes serial n = refl
  parameters-zip move_spec shape [] auxes serial n = absurd (omega arith)
  parameters-zip move_spec shape (a ∷ []) auxes serial n = absurd (omega arith)
  parameters-zip move_spec shape (a ∷ b ∷ []) auxes serial n = refl
  parameters-zip move_spec shape (a ∷ b ∷ c ∷ ts) auxes serial n = absurd (omega arith)
  parameters-zip zero_spec shape [] auxes serial n = absurd (omega arith)
  parameters-zip zero_spec shape (a ∷ []) auxes serial n = refl
  parameters-zip zero_spec shape (a ∷ b ∷ ts) auxes serial n = absurd (omega arith)

pub length-zip_operands :
    (shapes : List (List ℕ)) (ts : List Dtype)
    → length shapes ≡ length ts
    → length (zip_operands shapes ts) ≡ length ts
length-zip_operands [] [] n = refl
length-zip_operands [] (t ∷ ts) n = absurd (omega arith)
length-zip_operands (s ∷ shapes) [] n = absurd (omega arith)
length-zip_operands (s ∷ shapes) (t ∷ ts) n = ap suc (length-zip_operands shapes ts (omega arith))

-- A primitive Spec with an element type and an auxiliary part for each operand has, where its
-- parameters are found, as many as `operand_count` says, and to replace them by themselves leaves
-- the Spec as it is: no assertion of `replace_io` fails.
pub logical_replace_io-parameters :
    {Level : Type 0} (memory : MemoryLevel Level)
    (same : TensorSpec Level → TensorSpec Level → Bool)
    → ((t : TensorSpec Level) → same t t ≡ true)
    → (basics : PrimitiveBasics) (auxes : List (TensorSpecAux Level)) (serial : Bool)
      {operands : List (TensorSpec Level)}
    → (length basics.dtypes ≡ operand_count basics.typ) × (length auxes ≡ operand_count basics.typ)
    → parameters memory (primitive basics auxes serial) ≡ done operands
    → (length operands ≡ operand_count basics.typ)
      × (logical_replace_io memory same (primitive basics auxes serial) operands
          ≡ done (primitive basics auxes serial))
unfolding logical_replace_io replaced_spec logical_operand_count
logical_replace_io-parameters memory same r basics auxes serial {operands} (n, m) h =
    let zipped =
      sym (parameters-zip memory basics.typ basics.spec_shape basics.dtypes auxes serial n) ∙ h in
    let (shapes, e, h1) = >>=-eq-done (parameter_shapes basics) _ zipped in
    let (back, count) = replace_io-parameter_shapes basics n e in
    let zip_length : length (zip_operands shapes basics.dtypes) ≡ length auxes =
      length-zip_operands shapes basics.dtypes (count ∙ sym n) ∙ n ∙ sym m in
    let (o_eq, a_eq) =
      with_auxes-parts memory (zip_operands shapes basics.dtypes) auxes zip_length h1 in
    let len : length operands ≡ length auxes =
      sym (length-map (λ (t : TensorSpec _). t.aux) operands)
      ∙ ap (λ (l : List (TensorSpecAux _)). length l) a_eq in
    (
      len ∙ m,
      rw
          (
            ==-true (length operands) (operand_count basics.typ) (len ∙ m),
            o_eq,
            back,
            ==-true (length auxes) (length operands) (sym len),
            a_eq,
            h,
            all_same_refl same r operands,
          )
          refl,
    )
