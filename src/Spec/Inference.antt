-- ===== src/Spec/Inference.antt =====
-- morello/src/spec.rs: the operands' shapes are told by the Spec's shape, and the Spec's shape and
-- its output's shape by the operands'.
use morello.Base.{
  ℕ, and_split, ◌+◌, ◌-◌, ◌≡◌, ◌≢◌, refl, ap, ◌∙◌, sym, true, List, [], ◌∷◌, done, panic,
  >>=-eq-done, assert-done, done_eq, arith, u32, leb, ◌==◌, ◌&&◌, leb→le, map, length, at, ==-true,
  ==-false,
}
use morello.Common.{Dtype}
use morello.Layout.Update.{same_shape}
use morello.Spec.{
  zip_operands, PrimitiveSpecType, PrimitiveBasics, matmul, conv, move_spec, zero_spec, dim_size,
  input_count, output_idx, operand_count, matmul_output, conv_output, infer_output_shape,
  conv_spatial, spatial_of, conv_infer_output_shape, matmul_shapes, conv_shapes, parameter_shapes,
  matmul_spec_shape, image_and_filters, move_spec_shape, replaced_shape, replace_io,
}

same_shape_refl : (s : List ℕ) → same_shape s s ≡ true
unfolding same_shape
same_shape_refl [] = refl
same_shape_refl (d ∷ s) = rw (==-true d d refl) (same_shape_refl s)

replaced_shape-parameter_shapes :
    (typ : PrimitiveSpecType) (shape : List ℕ) (ts : List Dtype) {shapes : List (List ℕ)}
    → parameter_shapes (record { typ = typ; spec_shape = shape; dtypes = ts }) ≡ done shapes
    → (replaced_shape typ shapes ≡ done shape) × (length shapes ≡ operand_count typ)
unfolding parameter_shapes matmul_shapes conv_shapes conv_infer_output_shape replaced_shape
    matmul_spec_shape image_and_filters move_spec_shape operand_count input_count spatial_of
replaced_shape-parameter_shapes (matmul accum) (m ∷ k ∷ n ∷ []) ts h =
    rw (sym (done_eq h)) (rw (==-true m m refl, ==-true n n refl, ==-true k k refl) (refl, refl))
replaced_shape-parameter_shapes (matmul accum) [] ts h = cc
replaced_shape-parameter_shapes (matmul accum) (m ∷ []) ts h = cc
replaced_shape-parameter_shapes (matmul accum) (m ∷ k ∷ []) ts h = cc
replaced_shape-parameter_shapes (matmul accum) (m ∷ k ∷ n ∷ d ∷ shape) ts h = cc
replaced_shape-parameter_shapes (conv accum) (b ∷ f ∷ c ∷ h ∷ w ∷ fh ∷ fw ∷ []) ts e =
    let (fits, e1) = assert-done (leb fh h && leb fw w) _ e in
    let (out, e2, e3) =
      >>=-eq-done (conv_infer_output_shape (b ∷ c ∷ h ∷ w ∷ []) (f ∷ c ∷ fh ∷ fw ∷ [])) _ e1 in
    rw (sym (done_eq e3)) (rw (==-true c c refl) (refl, refl))
replaced_shape-parameter_shapes (conv accum) [] ts e = cc
replaced_shape-parameter_shapes (conv accum) (b ∷ []) ts e = cc
replaced_shape-parameter_shapes (conv accum) (b ∷ f ∷ []) ts e = cc
replaced_shape-parameter_shapes (conv accum) (b ∷ f ∷ c ∷ []) ts e = cc
replaced_shape-parameter_shapes (conv accum) (b ∷ f ∷ c ∷ h ∷ []) ts e = cc
replaced_shape-parameter_shapes (conv accum) (b ∷ f ∷ c ∷ h ∷ w ∷ []) ts e = cc
replaced_shape-parameter_shapes (conv accum) (b ∷ f ∷ c ∷ h ∷ w ∷ fh ∷ []) ts e = cc
replaced_shape-parameter_shapes (conv accum) (b ∷ f ∷ c ∷ h ∷ w ∷ fh ∷ fw ∷ d ∷ shape) ts e = cc
replaced_shape-parameter_shapes move_spec shape ts h =
    rw (sym (done_eq h)) (rw (same_shape_refl shape) (refl, refl))
replaced_shape-parameter_shapes zero_spec shape ts h = rw (sym (done_eq h)) (refl, refl)

zipped :
    (shapes : List (List ℕ)) (ts : List Dtype)
    → length shapes ≡ length ts
    → (map (λ o. o.0) (zip_operands shapes ts) ≡ shapes)
      × (map (λ o. o.1) (zip_operands shapes ts) ≡ ts)
zipped [] [] h = (refl, refl)
zipped [] (t ∷ ts) h = absurd (omega arith)
zipped (s ∷ shapes) [] h = absurd (omega arith)
zipped (s ∷ shapes) (t ∷ ts) h =
    let ih = zipped shapes ts (omega arith) in (ap (λ l. s ∷ l) ih.0, ap (λ l. t ∷ l) ih.1)

-- A primitive Spec whose operands have shapes, with an element type for each of them, is unchanged
-- by replacing its operands with those that it has; and it has `operand_count` of them.
pub replace_io-parameter_shapes :
    (basics : PrimitiveBasics) {shapes : List (List ℕ)}
    → length basics.dtypes ≡ operand_count basics.typ
    → parameter_shapes basics ≡ done shapes
    → (replace_io basics (zip_operands shapes basics.dtypes) ≡ done basics)
      × (length shapes ≡ operand_count basics.typ)
unfolding replace_io
replace_io-parameter_shapes basics {shapes} n h =
    let (e, l) = replaced_shape-parameter_shapes basics.typ basics.spec_shape basics.dtypes h in
    let (s, t) = zipped shapes basics.dtypes (l ∙ sym n) in (rw (s, t, e) refl, l)

-- `Zero` has no inputs to tell its output's shape from.
pub infer_output_shape-zero_spec :
    (inputs : List (List ℕ)) → infer_output_shape zero_spec inputs ≡ panic
unfolding infer_output_shape
infer_output_shape-zero_spec [] = refl
infer_output_shape-zero_spec (s ∷ inputs) =
    rw (==-false (length (s ∷ inputs)) 0 (λ e. absurd (omega arith))) refl

abbrev pub inputs_of : List (List ℕ) → List (List ℕ)
inputs_of (s ∷ t ∷ shapes) = s ∷ inputs_of (t ∷ shapes)
inputs_of _ = []

-- The two ways to compute a convolution's output agree.
pub conv_output-infer :
    (b c h w f fh fw : ℕ) {out : List ℕ}
    → (leb fh h && leb fw w) ≡ true
    → conv_infer_output_shape (b ∷ c ∷ h ∷ w ∷ []) (f ∷ c ∷ fh ∷ fw ∷ []) ≡ done out
    → conv_output (b ∷ c ∷ h ∷ w ∷ []) (f ∷ c ∷ fh ∷ fw ∷ []) ≡ done out
unfolding conv_infer_output_shape conv_output conv_spatial spatial_of
conv_output-infer b c h w f fh fw fits e =
    let (l, r) = and_split (leb fh h) (leb fw w) fits in
    let hh : 1 + h - fh ≡ h - fh + 1 = omega (arith, leb→le _ _ l) in
    let ww : 1 + w - fw ≡ w - fw + 1 = omega (arith, leb→le _ _ r) in
    let (t, e1) = assert-done (c == c) _ e in
    let (spatial, e2, e3) = >>=-eq-done (conv_spatial (h ∷ w ∷ []) (fh ∷ fw ∷ [])) _ e1 in
    let (t1, e4) = assert-done (leb fh h) _ e2 in
    let (oh, e5, e6) = >>=-eq-done (dim_size (u32 (h - fh + 1))) _ e4 in
    let (rest, e7, e8) = >>=-eq-done (conv_spatial (w ∷ []) (fw ∷ [])) _ e6 in
    let (t2, e9) = assert-done (leb fw w) _ e7 in
    let (ow, e10, e11) = >>=-eq-done (dim_size (u32 (w - fw + 1))) _ e9 in
    rw (fits, hh, ww, e5, e10) (rw (done_eq e11, done_eq e8) e3)

infer_from :
    (typ : PrimitiveSpecType) (shape : List ℕ) (ts : List Dtype) {shapes : List (List ℕ)}
    → typ ≢ zero_spec
    → parameter_shapes (record { typ = typ; spec_shape = shape; dtypes = ts }) ≡ done shapes
    → (out : List ℕ) × (at shapes (output_idx typ) ≡ done out)
      × (infer_output_shape typ (inputs_of shapes) ≡ done out)
unfolding parameter_shapes matmul_shapes conv_shapes output_idx infer_output_shape matmul_output
infer_from (matmul accum) (m ∷ k ∷ n ∷ []) ts z h = rw (sym (done_eq h)) (m ∷ n ∷ [], refl, refl)
infer_from (matmul accum) [] ts z h = cc
infer_from (matmul accum) (m ∷ []) ts z h = cc
infer_from (matmul accum) (m ∷ k ∷ []) ts z h = cc
infer_from (matmul accum) (m ∷ k ∷ n ∷ d ∷ shape) ts z h = cc
infer_from (conv accum) (b ∷ f ∷ c ∷ h ∷ w ∷ fh ∷ fw ∷ []) ts z e =
    let (fits, e1) = assert-done (leb fh h && leb fw w) _ e in
    let (out, e2, e3) =
      >>=-eq-done (conv_infer_output_shape (b ∷ c ∷ h ∷ w ∷ []) (f ∷ c ∷ fh ∷ fw ∷ [])) _ e1 in
    rw (sym (done_eq e3)) (out, refl, conv_output-infer b c h w f fh fw fits e2)
infer_from (conv accum) [] ts z e = cc
infer_from (conv accum) (b ∷ []) ts z e = cc
infer_from (conv accum) (b ∷ f ∷ []) ts z e = cc
infer_from (conv accum) (b ∷ f ∷ c ∷ []) ts z e = cc
infer_from (conv accum) (b ∷ f ∷ c ∷ h ∷ []) ts z e = cc
infer_from (conv accum) (b ∷ f ∷ c ∷ h ∷ w ∷ []) ts z e = cc
infer_from (conv accum) (b ∷ f ∷ c ∷ h ∷ w ∷ fh ∷ []) ts z e = cc
infer_from (conv accum) (b ∷ f ∷ c ∷ h ∷ w ∷ fh ∷ fw ∷ d ∷ shape) ts z e = cc
infer_from move_spec shape ts z h = rw (sym (done_eq h)) (shape, refl, refl)
infer_from zero_spec shape ts z h = absurd (z refl)

-- Of a primitive Spec other than Zero whose operands have shapes, the shape that
-- `infer_output_shape` finds from the inputs' shapes is the output's among the operands' shapes.
pub infer_output_shape-parameter_shapes :
    (basics : PrimitiveBasics) {shapes : List (List ℕ)}
    → basics.typ ≢ zero_spec
    → parameter_shapes basics ≡ done shapes
    → (out : List ℕ) × (at shapes (output_idx basics.typ) ≡ done out)
      × (infer_output_shape basics.typ (inputs_of shapes) ≡ done out)
infer_output_shape-parameter_shapes basics z h =
    infer_from basics.typ basics.spec_shape basics.dtypes z h
