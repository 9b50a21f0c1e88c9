-- ===== src/Spec/Limits.antt =====
-- morello/src/spec.rs: `Spec::canonicalize` and the memory limits that `Spec::is_canonical` tests.
use morello.Base.{
  ℕ, suc, ◌≡◌, refl, ap, ap₂, ◌∙◌, sym, Bool, true, false, not, ◌&&◌, ◌||◌, inl, inr, List, [], ◌∷◌,
  map, length, replicate, ltb, ◌==◌, if◌then◌else◌, Bool-cases, done, ◌>>=◌, ◌>>◌, >>=-eq-done,
  done_eq, assert, assert-done,
}
use morello.Utils.Bits.{bit_length_inverse}
use morello.Utils.Bits.Lengths.{bit_length_inverse-zero}
use morello.Memory.{
  MemVec, MemoryLimits, standard, zero_levels_slower_than_all, any_nonzero_levels_slower_than,
}
use morello.Memory.Levels.{
  slower_than_all, zeroed, any_hit, any_nonzero-any_hit, zero_levels_slower_than_all-zeroed,
}
use morello.Layout.{Layout, ok, err, row_major, contiguous_full}
use morello.Layout.Update.{FindPosition}
use morello.Target.{MemoryLevel}
use morello.TensorSpec.{TensorSpec, TensorSpecAux, aux_canonicalize}
use morello.TensorSpec.Squeeze.{aux_canonicalize-level}
use morello.Layout.Outcomes.{ok_eq, pass_ok, through_ok}
use morello.Spec.{
  PrimitiveSpecType, PrimitiveBasics, matmul, conv, move_spec, zero_spec, operand_count,
  parameter_shapes, zip_operands,
}
use morello.Spec.Logical.{primitive, Spec, parameters}
use morello.Spec.Inference.{replace_io-parameter_shapes}
use morello.Spec.Replace.{with_auxes-parts, parameters-zip, length-zip_operands}
use morello.Spec.Canonical.{
  set_layouts, is_bitwise_move, to_bitwise_move, canonicalize_auxes, canonical_auxes,
  logical_canonicalize, spec_canonicalize,
}

abbrev pub levels_of : {Level : Type 0} → List (TensorSpecAux Level) → List Level
levels_of auxes = map (λ a. a.level) auxes

set_layouts-levels :
    {Level : Type 0} (layout : Layout) (contig : ℕ) (auxes : List (TensorSpecAux Level))
    → levels_of (set_layouts layout contig auxes) ≡ levels_of auxes
unfolding set_layouts
set_layouts-levels layout contig [] = refl
set_layouts-levels layout contig (a ∷ auxes) =
    ap (λ l. a.level ∷ l) (set_layouts-levels layout contig auxes)

to_bitwise_move-levels :
    {Level : Type 0} (shape : List ℕ) (ts : _) (auxes : List (TensorSpecAux Level))
    {bs : List (TensorSpecAux Level)}
    → to_bitwise_move shape ts auxes ≡ done bs
    → levels_of bs ≡ levels_of auxes
unfolding to_bitwise_move
to_bitwise_move-levels shape ts auxes {bs} h =
    let (bitwise, e, h1) = >>=-eq-done (is_bitwise_move ts auxes) _ h in by_case bitwise h1
  where
    by_case :
        (bitwise : Bool)
        → (if bitwise
            then (assert (ltb (length shape) 256)
                >> (row_major (length shape) >>= λ rm.
                    contiguous_full rm >>= λ contig. done (set_layouts rm contig auxes)))
            else done auxes)
          ≡ done bs
        → levels_of bs ≡ levels_of auxes
    by_case false h = ap levels_of (sym (done_eq h))
    by_case true h =
        let (_, h1) = assert-done (ltb (length shape) 256) _ h in
        let (rm, _, h2) = >>=-eq-done (row_major (length shape)) _ h1 in
        let (contig, _, h3) = >>=-eq-done (contiguous_full rm) _ h2 in
        ap levels_of (sym (done_eq h3)) ∙ set_layouts-levels rm contig auxes

module _ (find_position : FindPosition) {Level : Type 0} where
  canonicalize_auxes-levels :
      (shapes : List (List ℕ)) (auxes : List (TensorSpecAux Level))
      {bs : List (TensorSpecAux Level)}
      → canonicalize_auxes find_position shapes auxes ≡ done (ok bs)
      → levels_of bs ≡ levels_of auxes
  unfolding canonicalize_auxes
  canonicalize_auxes-levels [] auxes h = ap levels_of (sym (ok_eq (done_eq h)))
  canonicalize_auxes-levels (s ∷ shapes) [] h = ap levels_of (sym (ok_eq (done_eq h)))
  canonicalize_auxes-levels (s ∷ shapes) (a ∷ auxes) h =
      let (r, e, h1) = >>=-eq-done (aux_canonicalize find_position a s) _ h in
      let (b, r_eq, h2) =
        through_ok r
          (λ b. canonicalize_auxes find_position shapes auxes >>= λ rest. elim rest [
            | err e ↦ done (err e)
            | ok bs ↦ done (ok (b ∷ bs))
          ])
          h1 in
      let (rest, f, h3) = >>=-eq-done (canonicalize_auxes find_position shapes auxes) _ h2 in
      let (cs, rest_eq, cs_eq) = pass_ok rest (λ cs. b ∷ cs) h3 in
      ap levels_of (sym cs_eq)
      ∙ ap₂ ◌∷◌ (aux_canonicalize-level find_position a s (e ∙ ap done r_eq))
          (canonicalize_auxes-levels shapes auxes (f ∙ ap done rest_eq))

  pub canonical_auxes-levels :
      (typ : PrimitiveSpecType) (shape : List ℕ) (ts : _) (auxes : List (TensorSpecAux Level))
      {bs : List (TensorSpecAux Level)}
      → canonical_auxes find_position (record { typ = typ; spec_shape = shape; dtypes = ts }) auxes
        ≡ done (ok bs)
      → levels_of bs ≡ levels_of auxes
  unfolding canonical_auxes
  canonical_auxes-levels (matmul accum) shape ts auxes h =
      let (shapes, _, h1) = >>=-eq-done (parameter_shapes _) _ h in
      canonicalize_auxes-levels shapes auxes h1
  canonical_auxes-levels (conv accum) shape ts auxes h =
      let (shapes, _, h1) = >>=-eq-done (parameter_shapes _) _ h in
      canonicalize_auxes-levels shapes auxes h1
  canonical_auxes-levels zero_spec shape ts [] h = cc
  canonical_auxes-levels zero_spec shape ts (a ∷ auxes) h =
      canonicalize_auxes-levels (shape ∷ []) (a ∷ auxes) h
  canonical_auxes-levels move_spec shape ts auxes h =
      let shapes = replicate (length auxes) shape in
      let (r, e, h1) = >>=-eq-done (canonicalize_auxes find_position shapes auxes) _ h in
      let (bs, r_eq, h2) =
        through_ok r (λ bs. to_bitwise_move shape ts bs >>= λ cs. done (ok cs)) h1 in
      let (cs, f, h3) = >>=-eq-done (to_bitwise_move shape ts bs) _ h2 in
      ap levels_of (sym (ok_eq (done_eq h3)))
      ∙ to_bitwise_move-levels shape ts bs f
      ∙ canonicalize_auxes-levels shapes auxes (e ∙ ap done r_eq)

no_hit : (b : Bool) → (b && false || false) ≡ false
no_hit true = refl
no_hit false = refl

-- Zeroing leaves no level to zero.
any_hit-zeroed :
    {Level : Type 0} (lt : Level → Level → Bool) (bounds levels : List Level) (v : MemVec)
    → any_hit lt bounds levels (zeroed lt bounds levels v) ≡ false
any_hit-zeroed lt bounds [] v = refl
any_hit-zeroed lt bounds (cur ∷ levels) [] = refl
any_hit-zeroed lt bounds (cur ∷ levels) (b ∷ v) =
    elim (Bool-cases (slower_than_all lt bounds cur)) [
      | inl hit ↦ rw (hit, bit_length_inverse-zero, any_hit-zeroed lt bounds levels v) refl
      | inr miss ↦
          rw (miss, any_hit-zeroed lt bounds levels v) (no_hit (not (bit_length_inverse b == 0)))
    ]

length-zeroed :
    {Level : Type 0} (lt : Level → Level → Bool) (bounds levels : List Level) (v : MemVec)
    → length (zeroed lt bounds levels v) ≡ length v
length-zeroed lt bounds [] v = refl
length-zeroed lt bounds (cur ∷ levels) [] = refl
length-zeroed lt bounds (cur ∷ levels) (b ∷ v) = ap suc (length-zeroed lt bounds levels v)

limits_pass :
    {Level : Type 0} (lt : Level → Level → Bool) (levels bounds : List Level) (v : MemVec)
    {limits : MemoryLimits}
    → length levels ≡ length v
    → zero_levels_slower_than_all lt levels (standard v) bounds ≡ done limits
    → any_nonzero_levels_slower_than lt levels limits bounds ≡ done false
limits_pass lt levels bounds v l f =
    let z = zeroed lt bounds levels v in
    let is_zeroed = done_eq (sym f ∙ zero_levels_slower_than_all-zeroed lt bounds levels v l) in
    ap (λ m. any_nonzero_levels_slower_than lt levels m bounds) is_zeroed
    ∙ any_nonzero-any_hit lt bounds levels z (l ∙ sym (length-zeroed lt bounds levels v))
    ∙ ap done (any_hit-zeroed lt bounds levels v)

map-map :
    {A B C : Type 0} (f : A → B) (g : B → C) (xs : List A)
    → map g (map f xs) ≡ map (λ x. g (f x)) xs
map-map f g [] = refl
map-map f g (x ∷ xs) = ap (λ ys. g (f x) ∷ ys) (map-map f g xs)

-- The levels of a primitive Spec's parameters are those of its auxiliary parts.
parameters-levels :
    {Level : Type 0} (memory : MemoryLevel Level) (basics : PrimitiveBasics)
    (auxes : List (TensorSpecAux Level)) (serial : Bool) {ps : List (TensorSpec Level)}
    → (length basics.dtypes ≡ operand_count basics.typ) × (length auxes ≡ operand_count basics.typ)
    → parameters memory (primitive basics auxes serial) ≡ done ps
    → map (λ p. p.aux.level) ps ≡ levels_of auxes
parameters-levels memory basics auxes serial {ps} (n, m) h =
    let zipped =
      sym (parameters-zip memory basics.typ basics.spec_shape basics.dtypes auxes serial n) ∙ h in
    let (shapes, e, h1) = >>=-eq-done (parameter_shapes basics) _ zipped in
    let (back, count) = replace_io-parameter_shapes basics n e in
    let same_length = length-zip_operands shapes basics.dtypes (count ∙ sym n) ∙ n ∙ sym m in
    let parts = with_auxes-parts memory (zip_operands shapes basics.dtypes) auxes same_length h1 in
    sym (map-map (λ p. p.aux) (λ a. a.level) ps) ∙ ap levels_of parts.1

module _ (find_position : FindPosition) {Level : Type 0} (memory : MemoryLevel Level)
    (lt : Level → Level → Bool) (levels : List Level) where
  -- Where a primitive Spec, with an element type and an auxiliary part for each operand and one
  -- limit for each memory level, is canonicalised, its operands are on the levels that they were
  -- on, and the limits pass the test of `is_canonical`: no level that is slower than all of them
  -- has bytes left.
  pub spec_canonicalize-limits :
      (basics : PrimitiveBasics) (auxes : List (TensorSpecAux Level)) (serial : Bool) (v : MemVec)
      {r : Spec Level}
      → (length basics.dtypes ≡ operand_count basics.typ)
        × (length auxes ≡ operand_count basics.typ)
      → length levels ≡ length v
      → spec_canonicalize find_position memory lt levels
          (record { logical = primitive basics auxes serial; limits = standard v })
        ≡ done (ok r)
      → (bs : List (TensorSpecAux Level)) × (r.logical ≡ primitive basics bs serial)
        × (levels_of bs ≡ levels_of auxes)
        × (any_nonzero_levels_slower_than lt levels r.limits (levels_of bs) ≡ done false)
  unfolding spec_canonicalize logical_canonicalize
  spec_canonicalize-limits basics auxes serial v {r} n l h =
      let (ps, e, h1) = >>=-eq-done (parameters memory (primitive basics auxes serial)) _ h in
      let on = parameters-levels memory basics auxes serial n e in
      let (limits, f, h2) =
        >>=-eq-done (zero_levels_slower_than_all lt levels (standard v) (map (λ p. p.aux.level) ps))
          _ h1 in
      let (u, g, h3) =
        >>=-eq-done (logical_canonicalize find_position (primitive basics auxes serial)) _ h2 in
      let (logical, u_eq, r_eq) =
        pass_ok u (λ logical. record { logical = logical; limits = limits }) h3 in
      let (w, k, h4) =
        >>=-eq-done (canonical_auxes find_position basics auxes) _ (g ∙ ap done u_eq) in
      let (bs, w_eq, logical_eq) = pass_ok w (λ bs. primitive basics bs serial) h4 in
      let kept =
        canonical_auxes-levels find_position basics.typ basics.spec_shape basics.dtypes auxes
          (k ∙ ap done w_eq) in
      (
        bs,
        ap (λ (s : Spec Level). s.logical) (sym r_eq) ∙ sym logical_eq,
        kept,
        ap₂ (λ m bounds. any_nonzero_levels_slower_than lt levels m bounds)
              (ap (λ (s : Spec Level). s.limits) (sym r_eq)) (kept ∙ sym on)
            ∙ limits_pass lt levels (map (λ p. p.aux.level) ps) v l f,
      )
