-- ===== src/Scheduling/Bodies.antt =====
-- morello/src/scheduling.rs: the operands that the body of a loop over tiles gets.
use morello.Base
use morello.Base.{
  ℕ, zero, suc, ◌≡◌, refl, ap, ap₂, ◌∙◌, sym, Bool, true, false, ◌&&◌, ◌||◌, List, [], ◌∷◌, map,
  length, set, length-set, length-map, leb, ◌≢◌, ◌==◌, ==_iff, and_split, Outcome, >>=-eq-done,
  done_eq, assert-done, arith, Option, some, get_elem?, get_elem?-set_self, at,
}
use morello.Common.{Dtype}
use morello.Layout.{ok}
use morello.Layout.Outcomes.{pass_ok}
use morello.Layout.Update.{FindPosition, same_shape, update_for_tiling}
use morello.Layout.SameShape.{same_shape-eq}
use morello.Target.{MemoryLevel, Target}
use morello.TensorSpec.{TensorSpec, TensorSpecAux, shrink, new_noncanon_with_aux}
use morello.TensorSpec.Alignment.{aligned_approx}
use morello.Spec.{
  Operand, zip_operands, PrimitiveBasics, PrimitiveSpecType, matmul, conv, move_spec, zero_spec,
  operand_count, parameter_shapes, replace_io, replaced_shape,
}
use morello.Spec.Logical.{
  LogicalSpec, primitive, compose, Spec, with_auxes, parameters, operand_of, serial_only,
  set_serial_only, logical_operand_count, compose_operand_count,
}
use morello.Spec.Inference.{replace_io-parameter_shapes}
use morello.Spec.Replace.{
  replace_components, new_noncanon-eq, all_same, replaced_spec, logical_replace_io,
  with_auxes-parts, parameters-zip, length-zip_operands,
}
use morello.Spec.Canonical.{canonical_auxes, logical_canonicalize}
use morello.Spec.Limits.{levels_of, canonical_auxes-levels}
use morello.Scheduling.{applied, LoopTile, same_tensor_spec}
use morello.Scheduling.Attempts.{>>=-eq-applied, run-bind, unwrapped-bind, unwrapped-eq, applied_eq}
use morello.Scheduling.Tiles.{shrink_operands, tiled_spec}

abbrev pub shapes_of : {Level : Type 0} → List (TensorSpec Level) → List (List ℕ)
shapes_of ts = map (λ t. t.shape) ts

-- The shapes of the operands, with those of the tiles in the place of the tiled ones.
abbrev pub with_tiles : {Level : Type 0} → List (LoopTile Level) → List (List ℕ) → List (List ℕ)
with_tiles [] shapes = shapes
with_tiles (l ∷ tiles) shapes = with_tiles tiles (set shapes l.tile.view.index l.tile.shape)

map-set :
    {A B : Type 0} (f : A → B) (xs : List A) (i : ℕ) (v : A)
    → map f (set xs i v) ≡ set (map f xs) i (f v)
map-set f [] i v = refl
map-set f (x ∷ xs) zero v = refl
map-set f (x ∷ xs) (suc i) v = ap (λ l. f x ∷ l) (map-set f xs i v)

module _ (find_position : FindPosition) {Level : Type 0} where
  pub shrink-shape :
      (t : TensorSpec Level) (shape : List ℕ) (aligned : Bool) {s : TensorSpec Level}
      → shrink find_position t shape aligned ≡ Outcome.done (ok s)
      → s.shape ≡ shape
  unfolding shrink
  shrink-shape t shape aligned h =
      let (r, e, h1) =
        >>=-eq-done (update_for_tiling find_position t.aux.layout t.shape shape t.aux.contig) _ h in
      let (p, f, g) =
        pass_ok r
          (λ (p : _). record t {
            shape = shape;
            aux = record t.aux { layout = p.0; contig = p.1; aligned = aligned };
          })
          h1 in
      ap (λ (s : TensorSpec Level). s.shape) (sym g)

  pub canonicalize-primitive :
      (b : PrimitiveBasics) (auxes : List (TensorSpecAux Level)) (serial : Bool)
      {l : LogicalSpec Level}
      → logical_canonicalize find_position (primitive b auxes serial) ≡ Outcome.done (ok l)
      → (bs : List (TensorSpecAux Level)) × (primitive b bs serial ≡ l)
        × (length auxes ≡ length bs)
        × (levels_of bs ≡ levels_of auxes)
  unfolding logical_canonicalize
  canonicalize-primitive b auxes serial h =
      let (r, e, h1) = >>=-eq-done (canonical_auxes find_position b auxes) _ h in
      let (bs, f, g) = pass_ok r (λ bs. primitive b bs serial) h1 in
      let levels =
        canonical_auxes-levels find_position b.typ b.spec_shape b.dtypes auxes
          (e ∙ ap Outcome.done f) in
      (
        bs,
        g,
        sym (length-map (λ (a : TensorSpecAux Level). a.level) auxes)
            ∙ ap (λ (l : List Level). length l) (sym levels)
            ∙ length-map (λ (a : TensorSpecAux Level). a.level) bs,
        levels,
      )

  pub canonicalize-compose :
      (components : List PrimitiveBasics) (auxes : List (TensorSpecAux Level)) (serial : Bool)
      {l : LogicalSpec Level}
      → logical_canonicalize find_position (compose components auxes serial) ≢ Outcome.done (ok l)
  unfolding logical_canonicalize
  canonicalize-compose components auxes serial h = cc

module _ {Level : Type 0} (memory : MemoryLevel Level) where
  with_auxes-operands :
      (operands : List Operand) (auxes bs : List (TensorSpecAux Level))
      {ts us : List (TensorSpec Level)}
      → length auxes ≡ length bs
      → with_auxes memory operands auxes ≡ Outcome.done ts
      → with_auxes memory operands bs ≡ Outcome.done us
      → map operand_of ts ≡ map operand_of us
  unfolding with_auxes
  with_auxes-operands [] auxes bs n h k = rw (sym (done_eq h), sym (done_eq k)) refl
  with_auxes-operands (o ∷ operands) [] [] n h k = rw (sym (done_eq h), sym (done_eq k)) refl
  with_auxes-operands (o ∷ operands) [] (b ∷ bs) n h k = absurd (omega arith)
  with_auxes-operands (o ∷ operands) (a ∷ auxes) [] n h k = absurd (omega arith)
  with_auxes-operands ((s, d) ∷ operands) (a ∷ auxes) (b ∷ bs) n h k =
      let (t, e, h1) = >>=-eq-done (new_noncanon_with_aux memory s d a) _ h in
      let (ts, f, h2) = >>=-eq-done (with_auxes memory operands auxes) _ h1 in
      let (u, e', k1) = >>=-eq-done (new_noncanon_with_aux memory s d b) _ k in
      let (us, f', k2) = >>=-eq-done (with_auxes memory operands bs) _ k1 in
      let first : operand_of t ≡ operand_of u =
        ap operand_of (sym (new_noncanon-eq memory s d a e))
        ∙ ap operand_of (new_noncanon-eq memory s d b e') in
      rw (sym (done_eq h2), sym (done_eq k2))
        (ap₂ ◌∷◌ first (with_auxes-operands operands auxes bs (omega arith) f f'))

  zipped-operands :
      (m : Outcome (List (List ℕ))) (types : List Dtype) (auxes bs : List (TensorSpecAux Level))
      {ts us : List (TensorSpec Level)}
      → length auxes ≡ length bs
      → (Base.◌>>=◌ m λ shapes. with_auxes memory (zip_operands shapes types) auxes)
        ≡ Outcome.done ts
      → (Base.◌>>=◌ m λ shapes. with_auxes memory (zip_operands shapes types) bs) ≡ Outcome.done us
      → map operand_of ts ≡ map operand_of us
  zipped-operands (Outcome.done shapes) types auxes bs n h k =
      with_auxes-operands (zip_operands shapes types) auxes bs n h k
  zipped-operands Outcome.panic types auxes bs n h k = cc

  -- The operands' shapes and element types do not depend on their auxiliary parts.
  parameters-operands :
      (typ : PrimitiveSpecType) (shape : List ℕ) (types : List Dtype)
      (auxes bs : List (TensorSpecAux Level)) (s s' : Bool) {ts us : List (TensorSpec Level)}
      → length auxes ≡ length bs
      → parameters memory
          (primitive (record { typ = typ; spec_shape = shape; dtypes = types }) auxes s)
        ≡ Outcome.done ts
      → parameters memory
          (primitive (record { typ = typ; spec_shape = shape; dtypes = types }) bs s')
        ≡ Outcome.done us
      → map operand_of ts ≡ map operand_of us
  unfolding parameters
  parameters-operands (matmul accum) shape types auxes bs s s' n h k =
      zipped-operands (parameter_shapes _) types auxes bs n h k
  parameters-operands (conv accum) shape types auxes bs s s' n h k =
      zipped-operands (parameter_shapes _) types auxes bs n h k
  parameters-operands move_spec shape types auxes bs s s' n h k =
      with_auxes-operands (map (λ t. (shape, t)) types) auxes bs n h k
  parameters-operands zero_spec shape types auxes bs s s' n h k =
      with_auxes-operands (map (λ t. (shape, t)) types) auxes bs n h k

first_of : (a b c d e f g : Bool) → (a && b && c && d && e && f && g) ≡ true → a ≡ true
first_of true b c d e f g h = refl
first_of false b c d e f g h = cc

same_tensor_spec-shape :
    {Level : Type 0} (target : Target Level) (t u : TensorSpec Level)
    → same_tensor_spec target t u ≡ true
    → t.shape ≡ u.shape
unfolding same_tensor_spec
same_tensor_spec-shape target t u h =
    same_shape-eq t.shape u.shape (first_of (same_shape t.shape u.shape) _ _ _ _ _ _ h)

all_same-shapes :
    {Level : Type 0} (target : Target Level) (ts us : List (TensorSpec Level))
    → length ts ≡ length us
    → all_same (same_tensor_spec target) ts us ≡ true
    → shapes_of ts ≡ shapes_of us
unfolding all_same
all_same-shapes target [] [] n h = refl
all_same-shapes target [] (u ∷ us) n h = absurd (omega arith)
all_same-shapes target (t ∷ ts) [] n h = absurd (omega arith)
all_same-shapes target (t ∷ ts) (u ∷ us) n h =
    let (e, r) =
      and_split (same_tensor_spec target t u) (all_same (same_tensor_spec target) ts us) h in
    ap₂ ◌∷◌ (same_tensor_spec-shape target t u e) (all_same-shapes target ts us (omega arith) r)

dtypes-operands :
    {Level : Type 0} (ts : List (TensorSpec Level))
    → map (λ (o : Operand). o.1) (map operand_of ts) ≡ map (λ t. t.dtype) ts
dtypes-operands [] = refl
dtypes-operands (t ∷ ts) = ap (λ l. t.dtype ∷ l) (dtypes-operands ts)

module _ {Level : Type 0} (memory : MemoryLevel Level) where
  -- A primitive Spec with an element type and an auxiliary part for each operand has as many.
  parameters-length :
      (basics : PrimitiveBasics) (auxes : List (TensorSpecAux Level)) (serial : Bool)
      {ts : List (TensorSpec Level)}
      → (length basics.dtypes ≡ operand_count basics.typ)
        × (length auxes ≡ operand_count basics.typ)
      → parameters memory (primitive basics auxes serial) ≡ Outcome.done ts
      → length ts ≡ length auxes
  parameters-length basics auxes serial {ts} (n, m) h =
      let zipped =
        sym (parameters-zip memory basics.typ basics.spec_shape basics.dtypes auxes serial n) ∙ h in
      let (shapes, e, h1) = >>=-eq-done (parameter_shapes basics) _ zipped in
      let (_, count) = replace_io-parameter_shapes basics n e in
      let zip_length : length (zip_operands shapes basics.dtypes) ≡ length auxes =
        length-zip_operands shapes basics.dtypes (count ∙ sym n) ∙ n ∙ sym m in
      let (_, a_eq) =
        with_auxes-parts memory (zip_operands shapes basics.dtypes) auxes zip_length h1 in
      sym (length-map (λ (t : TensorSpec Level). t.aux) ts)
      ∙ ap (λ (l : List (TensorSpecAux Level)). length l) a_eq

  -- What `replace_io` of a primitive Spec yields: its operands have the shapes that were given.
  pub replaced-shapes :
      (target : Target Level) (basics : PrimitiveBasics) (auxes : List (TensorSpecAux Level))
      (serial : Bool) (new_operands : List (TensorSpec Level)) {l : LogicalSpec Level}
      → logical_replace_io memory
          (same_tensor_spec target)
          (primitive basics auxes serial)
          new_operands
        ≡ Outcome.done l
      → (b : PrimitiveBasics) × (us : List (TensorSpec Level)) × (primitive b
            (map (λ t. t.aux) new_operands)
            serial
          ≡ l)
        × (parameters memory (primitive b (map (λ t. t.aux) new_operands) serial) ≡ Outcome.done us)
        × (shapes_of us ≡ shapes_of new_operands)
        × (b.typ ≡ basics.typ)
        × (b.dtypes ≡ map (λ t. t.dtype) new_operands)
  unfolding logical_replace_io replaced_spec logical_operand_count replace_io
  replaced-shapes target basics auxes serial new_operands {l} h =
      let (n, h1) = assert-done (length new_operands == operand_count basics.typ) _ h in
      let (new, e, h2) =
        >>=-eq-done
          (replaced_spec memory (same_tensor_spec target) (primitive basics auxes serial)
            new_operands)
          _ h1 in
      let operands = map operand_of new_operands in
      let (b, eb, e1) = >>=-eq-done (replace_io basics operands) _ e in
      let (_, e2) = assert-done (length auxes == length new_operands) _ e1 in
      let (shape, _, eb1) =
        >>=-eq-done (replaced_shape basics.typ (map (λ (o : Operand). o.0) operands)) _ eb in
      let new_eq =
        ap (λ (b : PrimitiveBasics). primitive b (map (λ t. t.aux) new_operands) serial)
          (done_eq eb1)
        ∙ done_eq e2 in
      let (us, p, h3) = >>=-eq-done (parameters memory new) _ h2 in
      let (agree, h4) = assert-done (all_same (same_tensor_spec target) us new_operands) _ h3 in
      let p' = ap (λ (l : LogicalSpec Level). parameters memory l) new_eq ∙ p in
      let count = (==_iff (length new_operands) (operand_count basics.typ)).0 n in
      let types_length =
        length-map (λ (o : Operand). o.1) operands ∙ length-map operand_of new_operands ∙ count in
      let auxes_length = length-map (λ (t : TensorSpec Level). t.aux) new_operands in
      let len =
        parameters-length _ _ serial (types_length, auxes_length ∙ count) p' ∙ auxes_length in
      (
        _,
        us,
        new_eq ∙ done_eq h4,
        p',
        all_same-shapes target us new_operands len agree,
        refl,
        dtypes-operands new_operands,
      )

shapes_of-operands :
    {Level : Type 0} (ts : List (TensorSpec Level))
    → map (λ (o : Operand). o.0) (map operand_of ts) ≡ shapes_of ts
shapes_of-operands [] = refl
shapes_of-operands (t ∷ ts) = ap (λ l. t.shape ∷ l) (shapes_of-operands ts)

pub replaced-compose :
    {Level : Type 0} (target : Target Level) (components : List PrimitiveBasics)
    (auxes : List (TensorSpecAux Level)) (serial : Bool) (new_operands : List (TensorSpec Level))
    {l : LogicalSpec Level}
    → logical_replace_io target.memory
        (same_tensor_spec target)
        (compose components auxes serial)
        new_operands
      ≡ Outcome.done l
    → (cs : List PrimitiveBasics) × (compose cs (map (λ t. t.aux) new_operands) serial ≡ l)
unfolding logical_replace_io replaced_spec logical_operand_count
replaced-compose target components auxes serial new_operands h =
    let (n, _, h1) = >>=-eq-done (compose_operand_count components) _ h in
    let (_, h2) = assert-done (length new_operands == n) _ h1 in
    let (new, e, h3) =
      >>=-eq-done
        (replaced_spec target.memory (same_tensor_spec target) (compose components auxes serial)
          new_operands)
        _ h2 in
    let (us, _, h4) = >>=-eq-done (parameters target.memory new) _ h3 in
    let (_, h5) = assert-done (all_same (same_tensor_spec target) us new_operands) _ h4 in
    let (_, e1) = assert-done (leb 1 (length new_operands)) _ e in
    let (cs, _, e2) =
      >>=-eq-done (replace_components components (map operand_of new_operands)) _ e1 in
    (cs, done_eq e2 ∙ done_eq h5)

module _ (find_position : FindPosition) {Level : Type 0} (target : Target Level) where
  shrink_operands-shapes :
      (tiles : List (LoopTile Level)) (operands : List (TensorSpec Level))
      {ts : List (TensorSpec Level)}
      → shrink_operands find_position target tiles operands ≡ applied ts
      → shapes_of ts ≡ with_tiles tiles (shapes_of operands)
  unfolding shrink_operands
  shrink_operands-shapes [] operands h = ap shapes_of (sym (applied_eq h))
  shrink_operands-shapes (l ∷ tiles) operands h =
      let i = l.tile.view.index in
      let (t, _, h1) = run-bind (at operands i) _ h in
      let (aligned, _, h2) =
        unwrapped-bind (aligned_approx target.line l.tile.shape l.tile.step_sizes t) _ h1 in
      let (s, e, h3) = unwrapped-bind (shrink find_position t l.tile.shape aligned) _ h2 in
      shrink_operands-shapes tiles (set operands i s) h3
      ∙ ap (with_tiles tiles) (
          map-set (λ (t : TensorSpec Level). t.shape) operands i s
          ∙ ap (set (shapes_of operands) i) (shrink-shape find_position t l.tile.shape aligned e))

  -- The body of a loop over tiles has the shapes of the tiles, and is serial if it was or if the
  -- loop is parallel.
  tiled_of :
      (logical : LogicalSpec Level) (new_operands : List (TensorSpec Level)) (parallel : Bool)
      {l inner : LogicalSpec Level} {ps : List (TensorSpec Level)}
      → logical_replace_io target.memory (same_tensor_spec target) logical new_operands
        ≡ Outcome.done l
      → logical_canonicalize find_position (set_serial_only l (serial_only l || parallel))
        ≡ Outcome.done (ok inner)
      → parameters target.memory inner ≡ Outcome.done ps
      → (shapes_of ps ≡ shapes_of new_operands)
        × (serial_only inner ≡ (serial_only logical || parallel))
  unfolding set_serial_only serial_only
  tiled_of (primitive basics auxes serial) new_operands parallel k h p =
      let (b, us, l_eq, p', shapes, _, _) =
        replaced-shapes target.memory target basics auxes serial new_operands k in
      let step = λ (l : LogicalSpec Level).
        logical_canonicalize find_position (set_serial_only l (serial_only l || parallel)) in
      let (bs, inner_eq, len, _) =
        canonicalize-primitive find_position b (map (λ t. t.aux) new_operands) (serial || parallel)
          (ap step l_eq ∙ h) in
      let params = ap (λ (l : LogicalSpec Level). parameters target.memory l) inner_eq ∙ p in
      let operands_eq =
        parameters-operands target.memory b.typ b.spec_shape b.dtypes _ bs serial
          (serial || parallel) len p' params in
      (
        sym (shapes_of-operands _)
            ∙ sym (ap (map (λ (o : Operand). o.0)) operands_eq)
            ∙ shapes_of-operands us
            ∙ shapes,
        ap serial_only (sym inner_eq),
      )
  tiled_of (compose components auxes serial) new_operands parallel k h p =
      let (cs, l_eq) = replaced-compose target components auxes serial new_operands k in
      let step = λ (l : LogicalSpec Level).
        logical_canonicalize find_position (set_serial_only l (serial_only l || parallel)) in
      absurd (canonicalize-compose find_position cs _ (serial || parallel) (ap step l_eq ∙ h))

  pub tiled_spec-operands :
      (spec : Spec Level) (operands : List (TensorSpec Level)) (tiles : List (LoopTile Level))
      (parallel : Bool) {inner : LogicalSpec Level} {ps : List (TensorSpec Level)}
      → tiled_spec find_position target spec operands tiles parallel ≡ applied inner
      → parameters target.memory inner ≡ Outcome.done ps
      → (shapes_of ps ≡ with_tiles tiles (shapes_of operands))
        × (serial_only inner ≡ (serial_only spec.logical || parallel))
  unfolding tiled_spec
  tiled_spec-operands spec operands tiles parallel h p =
      let (ts, e, h1) = >>=-eq-applied (shrink_operands find_position target tiles operands) _ h in
      let (l, f, h2) =
        run-bind (logical_replace_io target.memory (same_tensor_spec target) spec.logical ts) _
          h1 in
      let (shapes, serial) = tiled_of spec.logical ts parallel f (unwrapped-eq _ h2) p in
      (shapes ∙ shrink_operands-shapes tiles operands e, serial)
