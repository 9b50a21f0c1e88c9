-- ===== src/Scheduling/Loops.antt =====
-- morello/src/scheduling.rs: the loop that TileOut applies to.
use morello.Base
use morello.Base.{
  >>=-eq-done, done_eq, assert-done, ℕ, zero, suc, ◌<◌, ◌≡◌, refl, ap, ap₂, ◌∙◌, sym, subst, Bool,
  true, false, not, ◌&&◌, ◌||◌, Option, none, some, List, [], ◌∷◌, ◌++◌, map, length, set,
  length-set, length-map, get_elem?, get_elem?-set_self, get_elem?-lt, get_elem?-map, at,
  range_from, ltb, ◌==◌, Outcome, arith,
}
use morello.Layout.Update.{FindPosition}
use morello.Layout.Outcomes.{through_ok, pass_ok}
use morello.Layout.{ok, err}
use morello.Target.{Target}
use morello.Tiling.{Tiling, new_simple, new_sliding}
use morello.TensorSpec.{TensorSpec, shrink}
use morello.TensorSpec.Alignment.{aligned_approx}
use morello.Spec.Logical.{LogicalSpec, Spec, parameters, logical_output_idx, serial_only}
use morello.Spec.Canonical.{spec_is_canonical}
use morello.Views.{Param, Tile, View, view_spec, tile_new, tiling_apply}
use morello.Scheduling.{
  TileOut, tile_out, parallel_of, applied, LoopTile, SpecApp, ImplNode, loop, pipe, move_let, block,
  kernel_app, spec_not_canonical,
}
use morello.Scheduling.Attempts.{
  >>=-eq-applied, run-bind, demand-bind, refuse_if-bind, tile_or_refuse-bind, applied_eq,
}
use morello.Scheduling.Tiles.{
  tiled_shape, params_from, as_views, default_app, logical_input_tilings, input_tiles, check_tile,
  tiles_around, tile_out_tiles, tiled_spec, apply_tile_out,
}
use morello.Scheduling.Apply.{apply, apply_case}
use morello.Scheduling.Bodies.{shapes_of, with_tiles, tiled_spec-operands}

with_tiles-append :
    {Level : Type 0} (tiles : List (LoopTile Level)) (l : LoopTile Level) (shapes : List (List ℕ))
    → with_tiles (tiles ++ l ∷ []) shapes
      ≡ set (with_tiles tiles shapes) l.tile.view.index l.tile.shape
with_tiles-append [] l shapes = refl
with_tiles-append (t ∷ tiles) l shapes =
    with_tiles-append tiles l (set shapes t.tile.view.index t.tile.shape)

length-with_tiles :
    {Level : Type 0} (tiles : List (LoopTile Level)) (shapes : List (List ℕ))
    → length (with_tiles tiles shapes) ≡ length shapes
length-with_tiles [] shapes = refl
length-with_tiles (t ∷ tiles) shapes =
    length-with_tiles tiles (set shapes t.tile.view.index t.tile.shape)
    ∙ length-set shapes t.tile.view.index t.tile.shape

pub view_specs-params :
    {Level : Type 0} (i : ℕ) (ts : List (TensorSpec Level))
    → map view_spec (as_views (params_from i ts)) ≡ ts
unfolding as_views params_from view_spec
view_specs-params i [] = refl
view_specs-params i (t ∷ ts) = ap (λ l. t ∷ l) (view_specs-params (suc i) ts)

map-map :
    {Level : Type 0} (vs : List (View Level))
    → shapes_of (map view_spec vs) ≡ map (λ v. (view_spec v).shape) vs
map-map [] = refl
map-map (v ∷ vs) = ap (λ l. (view_spec v).shape ∷ l) (map-map vs)

-- A loop whose body has the operands of a Spec, with the shapes of the loop's tiles, gets them as
-- arguments and keeps the memory limits; it is serial if the Spec is, or if the loop is parallel.
abbrev pub HasTiledBody :
    {Level Kernel : Type 0}
    → Target Level
    → Spec Level
    → List (TensorSpec Level)
    → Bool
    → ImplNode Level Kernel
    → Type 0
HasTiledBody target spec operands parallel (loop tiles body p s) =
    (ps : List (TensorSpec _)) × (parameters target.memory body.spec.logical ≡ Outcome.done ps)
    × (map view_spec body.args ≡ ps)
    × (shapes_of ps ≡ with_tiles tiles (shapes_of operands))
    × (body.spec.limits ≡ spec.limits)
    × (serial_only body.spec.logical ≡ (serial_only spec.logical || parallel))
    × (p ≡ parallel)
    × (s ≡ spec)
HasTiledBody target spec operands parallel (pipe _ _ _) = ⊥
HasTiledBody target spec operands parallel (move_let _) = ⊥
HasTiledBody target spec operands parallel (block _ _ _ _) = ⊥
HasTiledBody target spec operands parallel (kernel_app _ _ _) = ⊥

-- The shapes of the arguments that a loop passes to its body.
abbrev pub argument_shapes : {Level Kernel : Type 0} → ImplNode Level Kernel → List (List ℕ)
argument_shapes (loop tiles body p s) = map (λ v. (view_spec v).shape) body.args
argument_shapes _ = []

new_simple-shape :
    (shape : List ℕ) {t : Tiling} → new_simple shape ≡ Outcome.done t → t.shape ≡ shape
unfolding new_simple new_sliding
new_simple-shape shape h =
    ap (λ (t : Tiling). t.shape) (sym (done_eq (assert-done (length shape == length shape) _ h).1))

at-lt : {A : Type 0} (xs : List A) (i : ℕ) {x : A} → at xs i ≡ Outcome.done x → i < length xs
at-lt [] i h = cc
at-lt (y ∷ xs) zero h = omega arith
at-lt (y ∷ xs) (suc i) h = omega (arith, at-lt xs i h)

module _ (find_position : FindPosition) {Level : Type 0} (target : Target Level) where
  tile_new-parts :
      (shape steps : List ℕ) (view : Param Level) {t : Tile Level}
      → tile_new find_position target shape steps view ≡ Outcome.done (ok t)
      → (t.shape ≡ shape) × (t.view ≡ view)
  unfolding tile_new
  tile_new-parts shape steps view h =
      let made = λ (spec : TensorSpec Level).
        let t : Tile Level = record {
          shape = shape;
          step_sizes = steps;
          view = view;
          spec = spec;
        } in
        t in
      let (r, _, h1) = >>=-eq-done (aligned_approx target.line shape steps view.spec) _ h in
      let (aligned, _, h2) =
        through_ok r
          (λ aligned.
            Base.◌>>=◌ (shrink find_position view.spec shape aligned) λ s. elim s [
              | err e ↦ Outcome.done (err e)
              | ok spec ↦ Outcome.done (ok (made spec))
            ])
          h1 in
      let (s, _, h3) = >>=-eq-done (shrink find_position view.spec shape aligned) _ h2 in
      let (spec, _, t_eq) = pass_ok s made h3 in
      (ap (λ (t : Tile Level). t.shape) (sym t_eq), ap (λ (t : Tile Level). t.view) (sym t_eq))

  tiles_around-last :
      (parallel : Bool) (logical : LogicalSpec Level) (operands : List (TensorSpec Level))
      (output : Param Level) (smaller : Tiling) {tiles : List (LoopTile Level)}
      → tiles_around find_position target parallel logical operands output smaller ≡ applied tiles
      → (pre : List (LoopTile Level)) × (l : LoopTile Level) × (l.tile.shape ≡ smaller.shape)
        × (l.tile.view ≡ output)
        × (pre ++ l ∷ [] ≡ tiles)
  unfolding tiles_around tiling_apply
  tiles_around-last parallel logical operands output smaller h =
      let (t, e, h1) = tile_or_refuse-bind (tiling_apply find_position target smaller output) _ h in
      let (tilings, _, h2) = >>=-eq-applied (logical_input_tilings logical smaller) _ h1 in
      let (tiles, _, h3) =
        >>=-eq-applied
          (input_tiles find_position target output.index parallel 0 (length smaller.shape) operands
            tilings)
          _ h2 in
      let (t_shape, t_view) = tile_new-parts smaller.shape smaller.step_sizes output e in
      (tiles, _, t_shape, t_view, applied_eq h3)

  -- The last tile is that of the output, and has the shape that the action asks for.
  tile_out_tiles-last :
      (tileout : TileOut) (parallel : Bool) (logical : LogicalSpec Level)
      (operands : List (TensorSpec Level)) {tiles : List (LoopTile Level)}
      → tile_out_tiles find_position target tileout parallel logical operands ≡ applied tiles
      → (idx : ℕ) × (current : TensorSpec Level) × (shape : List ℕ) × (pre : List (LoopTile Level))
        × (l : LoopTile Level) × (logical_output_idx logical ≡ Outcome.done idx)
        × (at operands idx ≡ Outcome.done current)
        × (tiled_shape tileout current.shape ≡ applied shape)
        × (l.tile.shape ≡ shape)
        × (l.tile.view.index ≡ idx)
        × (pre ++ l ∷ [] ≡ tiles)
  unfolding tile_out_tiles
  tile_out_tiles-last tileout parallel logical operands h =
      let (idx, e_idx, h1) = run-bind (logical_output_idx logical) _ h in
      let (current, e_cur, h2) = run-bind (at operands idx) _ h1 in
      let (shape, e_shape, h3) = >>=-eq-applied (tiled_shape tileout current.shape) _ h2 in
      let (_, _, h4) =
        >>=-eq-applied (check_tile find_position target parallel logical current shape) _ h3 in
      let (smaller, e_small, h5) = run-bind (new_simple shape) _ h4 in
      let (_, h6) = demand-bind (ltb (length shape) 256) _ h5 in
      let (pre, l, l_shape, l_view, tiles_eq) =
        tiles_around-last parallel logical operands (record { index = idx; spec = current }) smaller
          h6 in
      (
        idx,
        current,
        shape,
        pre,
        l,
        e_idx,
        e_cur,
        e_shape,
        l_shape ∙ new_simple-shape shape e_small,
        ap (λ (p : Param Level). p.index) l_view,
        tiles_eq,
      )

  -- The output among the shapes of the tiles.
  tile_out_tiles-output :
      (tileout : TileOut) (parallel : Bool) (logical : LogicalSpec Level)
      (operands : List (TensorSpec Level)) {tiles : List (LoopTile Level)}
      → tile_out_tiles find_position target tileout parallel logical operands ≡ applied tiles
      → (idx : ℕ) × (current : TensorSpec Level) × (shape : List ℕ) × (logical_output_idx logical
          ≡ Outcome.done idx)
        × (at operands idx ≡ Outcome.done current)
        × (tiled_shape tileout current.shape ≡ applied shape)
        × (get_elem? (with_tiles tiles (shapes_of operands)) idx ≡ some shape)
  tile_out_tiles-output tileout parallel logical operands h =
      let (idx, current, shape, pre, l, e_idx, e_cur, e_shape, l_shape, l_idx, tiles_eq) =
        tile_out_tiles-last tileout parallel logical operands h in
      let before = with_tiles pre (shapes_of operands) in
      let inside : idx < length before =
        subst (λ n. idx < n)
          (sym (
            length-with_tiles pre (shapes_of operands)
            ∙ length-map (λ (t : TensorSpec Level). t.shape) operands))
          (at-lt operands idx e_cur) in
      (
        idx,
        current,
        shape,
        e_idx,
        e_cur,
        e_shape,
        ap (λ ts. get_elem? (with_tiles ts (shapes_of operands)) idx) (sym tiles_eq)
            ∙ ap (λ s. get_elem? s idx)
                (with_tiles-append pre l (shapes_of operands) ∙ ap₂ (set before) l_idx l_shape)
            ∙ get_elem?-set_self before idx shape inside,
      )

  default_app-parts :
      (spec : Spec Level) {app : SpecApp Level}
      → default_app find_position target spec ≡ applied app
      → (ps : List (TensorSpec Level)) × (parameters target.memory app.spec.logical
          ≡ Outcome.done ps)
        × (map view_spec app.args ≡ ps)
        × (app.spec ≡ spec)
  unfolding default_app
  default_app-parts spec h =
      let (ps, e, h1) = run-bind (parameters target.memory spec.logical) _ h in
      let app_eq = applied_eq h1 in
      let spec_eq = ap (λ (a : SpecApp Level). a.spec) (sym app_eq) in
      (
        ps,
        ap (λ (s : Spec Level). parameters target.memory s.logical) spec_eq ∙ e,
        ap (λ (a : SpecApp Level). map view_spec a.args) (sym app_eq) ∙ view_specs-params 0 ps,
        spec_eq,
      )

  apply_tile_out-body :
      {Kernel : Type 0} (tileout : TileOut) (parallel : Bool) (spec : Spec Level)
      (operands : List (TensorSpec Level)) {node : ImplNode Level Kernel}
      → apply_tile_out find_position target tileout parallel spec operands ≡ applied node
      → (tiles : List (LoopTile Level)) × (body : SpecApp Level) × (tile_out_tiles find_position
            target tileout parallel spec.logical operands
          ≡ applied tiles)
        × (loop tiles body parallel spec ≡ node)
        × (map (λ v. (view_spec v).shape) body.args ≡ with_tiles tiles (shapes_of operands))
        × HasTiledBody {Kernel = Kernel} target spec operands parallel
            (loop tiles body parallel spec)
  unfolding apply_tile_out
  apply_tile_out-body tileout parallel spec operands h =
      let (tiles, e_tiles, h1) =
        >>=-eq-applied (tile_out_tiles find_position target tileout parallel spec.logical operands)
          _ h in
      let (inner, e_inner, h2) =
        >>=-eq-applied (tiled_spec find_position target spec operands tiles parallel) _ h1 in
      let whole : Spec Level = record { logical = inner; limits = spec.limits } in
      let (body, e_body, h3) = >>=-eq-applied (default_app find_position target whole) _ h2 in
      let (ps, e_ps, args, spec_eq) = default_app-parts whole e_body in
      let logical_eq = ap (λ (s : Spec Level). s.logical) spec_eq in
      let (shapes, serial) =
        tiled_spec-operands find_position target spec operands tiles parallel e_inner
          (ap (parameters target.memory) (sym logical_eq) ∙ e_ps) in
      (
        tiles,
        body,
        e_tiles,
        applied_eq h3,
        sym (map-map body.args) ∙ ap shapes_of args ∙ shapes,
        (
          ps,
          e_ps,
          args,
          shapes,
          ap (λ (s : Spec Level). s.limits) spec_eq,
          ap serial_only logical_eq ∙ serial,
          refl,
          refl,
        ),
      )

  -- Where TileOut applies to a Spec, it makes a loop with a body whose operands have the shapes of
  -- the loop's tiles, or the Spec's own shapes where no tile stands for them. The body gets its
  -- operands as arguments, in order; its output has exactly the shape that the action asks for;
  -- its memory limits are those of the Spec; and it is serial if the Spec is or the loop is parallel.
  pub apply-tile_out :
      {Kernel : Type 0} (tileout : TileOut) (spec : Spec Level) {node : ImplNode Level Kernel}
      → apply find_position target (tile_out tileout) spec ≡ applied node
      → (operands : List (TensorSpec Level)) × (idx : ℕ) × (current : TensorSpec Level)
        × (shape : List ℕ) × (parameters target.memory spec.logical ≡ Outcome.done operands)
        × (logical_output_idx spec.logical ≡ Outcome.done idx)
        × (at operands idx ≡ Outcome.done current)
        × (tiled_shape tileout current.shape ≡ applied shape)
        × (get_elem? (argument_shapes node) idx ≡ some shape)
        × HasTiledBody target spec operands (parallel_of tileout) node
  unfolding apply apply_case
  apply-tile_out {Kernel} tileout spec {node} h =
      let (c, _, h1) =
        run-bind (spec_is_canonical find_position target.memory target.level_lt target.levels spec)
          _ h in
      let (_, h2) = refuse_if-bind (not c) spec_not_canonical _ h1 in
      let (operands, e_ops, h3) = run-bind (parameters target.memory spec.logical) _ h2 in
      let parallel = parallel_of tileout in
      let (tiles, body, e_tiles, node_eq, args, has) =
        apply_tile_out-body tileout parallel spec operands h3 in
      let (idx, current, shape, e_idx, e_cur, e_shape, at_idx) =
        tile_out_tiles-output tileout parallel spec.logical operands e_tiles in
      (
        operands,
        idx,
        current,
        shape,
        e_ops,
        e_idx,
        e_cur,
        e_shape,
        ap (λ n. get_elem? (argument_shapes n) idx) (sym node_eq)
            ∙ ap (λ s. get_elem? s idx) args
            ∙ at_idx,
        subst (HasTiledBody target spec operands parallel) node_eq has,
      )
