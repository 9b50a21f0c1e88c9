-- ===== src/Scheduling/Tiles.antt =====
-- morello/src/scheduling.rs, the cases of `Action::apply` that tile: TileOut, Split and SpatialSplit.
use morello.Base.{
  ℕ, suc, ◌+◌, ◌-◌, Bool, true, false, not, ◌&&◌, ◌||◌, Option, none, some, List, [], ◌∷◌, ◌++◌,
  length, set, replicate, range_from, at, u8, ltb, leb, ◌==◌, if◌then◌else◌, Outcome,
}
use morello.Layout.{Result}
use morello.Layout.Update.{FindPosition, same_shape, take}
use morello.Target.{Target}
use morello.Tiling.{Tiling, new_simple}
use morello.TensorSpec.{TensorSpec, all_at_most, is_valid_tile_shape, shrink}
use morello.TensorSpec.Alignment.{aligned_approx}
use morello.Spec.{
  PrimitiveBasics, Inferred, matmul, conv, move_spec, zero_spec, input_tilings_for_tile_out,
}
use morello.Spec.Logical.{
  LogicalSpec, primitive, compose, Spec, parameters, logical_output_idx, serial_only,
  set_serial_only,
}
use morello.Spec.Replace.{logical_replace_io}
use morello.Spec.Canonical.{logical_canonicalize}
use morello.Views.{
  Param, Tile, View, param_view, tile_view, view_spec, tile_new, tiling_apply, view_squeeze_dims,
  transpose,
}
use morello.Scheduling.{
  TileOut, single_loop, multi_loop, tile_shape_matches_original, tile_shape_is_larger,
  tile_shape_invalid, action_not_applicable, Attempt, applied, panicked, ◌>>=◌, ◌>>◌, run, demand,
  refuse_if, unwrapped, tile_or_refuse, LoopTile, SpecApp, ImplNode, loop, same_tensor_spec,
}

-- The shape of the tile of the output.
unfoldable pub tiled_shape : TileOut → List ℕ → Attempt (List ℕ)
tiled_shape (single_loop dim size parallel) current =
    if ltb dim (length current) then applied (set current dim size) else panicked
tiled_shape (multi_loop output_shape parallel) current = applied output_shape

-- The loop dimensions of a tile: those of the output, and fresh ones, counted by a u8.
unfoldable pub loop_axes : ℕ → List (Option ℕ) → List ℕ × ℕ
loop_axes next_fresh [] = ([], next_fresh)
loop_axes next_fresh (some output_dim ∷ axes) =
    let (dims, after) = loop_axes next_fresh axes in (output_dim ∷ dims, after)
loop_axes next_fresh (none ∷ axes) =
    let (dims, after) = loop_axes (u8 (next_fresh + 1)) axes in (next_fresh ∷ dims, after)

-- `SpecApp::default_app`: a parameter for each operand.
unfoldable pub params_from : {Level : Type 0} → ℕ → List (TensorSpec Level) → List (Param Level)
params_from i [] = []
params_from i (t ∷ operands) = record { index = i; spec = t } ∷ params_from (suc i) operands

unfoldable pub as_views : {Level : Type 0} → List (Param Level) → List (View Level)
as_views [] = []
as_views (p ∷ params) = param_view p ∷ as_views params

-- The test at the end of a Split.
unfoldable pub is_accum_matmul : {Level : Type 0} → LogicalSpec Level → Bool
is_accum_matmul (compose components auxes serial) = false
is_accum_matmul (primitive basics auxes serial) = elim basics.typ [
  | matmul accum ↦ accum
  | conv accum ↦ false
  | move_spec ↦ false
  | zero_spec ↦ false
]

unfoldable pub logical_input_tilings :
    {Level : Type 0} → LogicalSpec Level → Tiling → Attempt (List Inferred)
logical_input_tilings (primitive basics auxes serial) smaller_output =
    run (input_tilings_for_tile_out basics smaller_output)
logical_input_tilings (compose components auxes serial) smaller_output = panicked

module _ (find_position : FindPosition) {Level : Type 0} (target : Target Level) where
  unfoldable pub default_app : Spec Level → Attempt (SpecApp Level)
  default_app spec = do
    operands ← run (parameters target.memory spec.logical)
    applied (record { spec = spec; args = as_views (params_from 0 operands) })

  -- Of an operand that is tiled: no tile if it has the operand's own shape.
  unfoldable pub operand_tile :
      ℕ → TensorSpec Level → Tiling → List ℕ → Attempt (List (LoopTile Level))
  operand_tile i operand tiling axes =
      if same_shape operand.shape tiling.shape then applied [] else (do
        t ←
            tile_or_refuse
              (tiling_apply find_position target tiling (record { index = i; spec = operand }))
        applied (record { axes = axes; tile = t } ∷ []))

  -- The loop over the operands, zipped with their tilings, from operand `i` on.
  unfoldable pub input_tiles :
      ℕ → Bool → ℕ → ℕ → List (TensorSpec Level) → List Inferred → Attempt (List (LoopTile Level))
  input_tiles output_idx parallel i next_fresh (operand ∷ operands) ((tiling, bound) ∷ tilings) =
      let skip = input_tiles output_idx parallel (suc i) next_fresh operands tilings in
      let (axes, after) = loop_axes next_fresh bound in
      let rest = input_tiles output_idx parallel (suc i) after operands tilings in
      if i == output_idx then skip else (do
        valid ← run (is_valid_tile_shape target.memory operand tiling.shape parallel)
        refuse_if (not valid) (action_not_applicable tile_shape_invalid)
        tiles ← operand_tile i operand tiling axes
        others ← rest
        applied (tiles ++ others))
  input_tiles output_idx parallel i next_fresh _ _ = applied []

  -- The guards of a TileOut, on the output and the shape of its tile.
  unfoldable pub check_tile :
      Bool → LogicalSpec Level → TensorSpec Level → List ℕ → Attempt (Unit {0})
  check_tile parallel logical current_output output_shape = do
    demand (not (parallel && serial_only logical))
    demand (length output_shape == length current_output.shape)
    refuse_if (same_shape current_output.shape output_shape)
        (action_not_applicable tile_shape_matches_original)
    refuse_if (not (all_at_most output_shape current_output.shape))
        (action_not_applicable tile_shape_is_larger)
    valid ← run (is_valid_tile_shape target.memory current_output output_shape parallel)
    refuse_if (not valid) (action_not_applicable tile_shape_invalid)

  -- The tiles once the guards have passed, that of the output last.
  unfoldable pub tiles_around :
      Bool
      → LogicalSpec Level
      → List (TensorSpec Level)
      → Param Level
      → Tiling
      → Attempt (List (LoopTile Level))
  tiles_around parallel logical operands output smaller = do
    t ← tile_or_refuse (tiling_apply find_position target smaller output)
    tilings ← logical_input_tilings logical smaller
    tiles ← input_tiles output.index parallel 0 (length smaller.shape) operands tilings
    applied (tiles ++ record { axes = range_from 0 (length smaller.shape); tile = t } ∷ [])

  unfoldable pub tile_out_tiles :
      TileOut → Bool → LogicalSpec Level → List (TensorSpec Level) → Attempt (List (LoopTile Level))
  tile_out_tiles tileout parallel logical operands = do
    idx ← run (logical_output_idx logical)
    current_output ← run (at operands idx)
    output_shape ← tiled_shape tileout current_output.shape
    check_tile parallel logical current_output output_shape
    smaller ← run (new_simple output_shape)
    demand (ltb (length output_shape) 256)
    tiles_around parallel logical operands (record { index = idx; spec = current_output }) smaller

  unfoldable pub split_tiles :
      ℕ → LogicalSpec Level → List (TensorSpec Level) → Attempt (List (LoopTile Level))
  split_tiles k (compose components auxes serial) operands = panicked
  split_tiles k (primitive basics auxes serial) operands = elim basics.typ [
    | conv accum ↦ panicked
    | move_spec ↦ panicked
    | zero_spec ↦ panicked
    | matmul accum ↦ do
      lhs ← run (at operands 0)
      rhs ← run (at operands 1)
      m ← run (at lhs.shape 0)
      lhs_k ← run (at lhs.shape 1)
      demand (ltb k lhs_k)
      left ← tile_or_refuse (
          tile_new find_position target (m ∷ k ∷ []) (m ∷ k ∷ [])
            (record { index = 0; spec = lhs }))
      n ← run (at rhs.shape 1)
      right ← tile_or_refuse (
          tile_new find_position target (k ∷ n ∷ []) (k ∷ n ∷ [])
            (record { index = 1; spec = rhs }))
      applied (
          record { axes = 0 ∷ 1 ∷ []; tile = left }
          ∷ record { axes = 1 ∷ 2 ∷ []; tile = right }
          ∷ [])
  ]

  -- The operands, shrunk to their tiles.
  unfoldable pub shrink_operands :
      List (LoopTile Level) → List (TensorSpec Level) → Attempt (List (TensorSpec Level))
  shrink_operands [] operands = applied operands
  shrink_operands (l ∷ tiles) operands = do
    operand ← run (at operands l.tile.view.index)
    aligned ← unwrapped (aligned_approx target.line l.tile.shape l.tile.step_sizes operand)
    shrunk ← unwrapped (shrink find_position operand l.tile.shape aligned)
    shrink_operands tiles (set operands l.tile.view.index shrunk)

  -- The Spec of the body of a loop over the tiles.
  unfoldable pub tiled_spec :
      Spec Level
      → List (TensorSpec Level)
      → List (LoopTile Level)
      → Bool
      → Attempt (LogicalSpec Level)
  tiled_spec spec operands tiles parallel = do
    new_operands ← shrink_operands tiles operands
    inner ←
        run (logical_replace_io target.memory (same_tensor_spec target) spec.logical new_operands)
    unwrapped
        (logical_canonicalize find_position (set_serial_only inner (serial_only inner || parallel)))

  unfoldable pub apply_tile_out :
      {Kernel : Type 0}
      → TileOut
      → Bool
      → Spec Level
      → List (TensorSpec Level)
      → Attempt (ImplNode Level Kernel)
  apply_tile_out tileout parallel spec operands = do
    tiles ← tile_out_tiles tileout parallel spec.logical operands
    inner ← tiled_spec spec operands tiles parallel
    body ← default_app (record { logical = inner; limits = spec.limits })
    applied (loop tiles body parallel spec)

  unfoldable pub apply_split :
      {Kernel : Type 0} → ℕ → Spec Level → List (TensorSpec Level) → Attempt (ImplNode Level Kernel)
  apply_split k spec operands = do
    tiles ← split_tiles k spec.logical operands
    inner ← tiled_spec spec operands tiles false
    demand (is_accum_matmul inner)
    body ← default_app (record { logical = inner; limits = spec.limits })
    applied (loop tiles body false spec)

  -- The tile of one pixel of an operand, with all of its outer two dimensions.
  unfoldable pub pixel_tile : ℕ → TensorSpec Level → ℕ → Attempt (Result (Tile Level))
  pixel_tile rank operand idx = do
    demand (leb 2 (length operand.shape))
    demand (leb 2 rank)
    let shape = take 2 operand.shape ++ replicate (rank - 2) 1
    run (tile_new find_position target shape shape (record { index = idx; spec = operand }))

  unfoldable pub spatial_body :
      {Kernel : Type 0}
      → PrimitiveBasics
      → Bool
      → Spec Level
      → List (TensorSpec Level)
      → Attempt (ImplNode Level Kernel)
  spatial_body basics serial spec operands = do
    image ← run (at operands 0)
    demand (ltb (length image.shape) 256)
    let rank = length image.shape
    filters ← run (at operands 1)
    output ← run (at operands 2)
    image_tile ← pixel_tile rank image 0
    filters_tile ← pixel_tile rank filters 1
    outer_image ← tile_or_refuse (Outcome.done image_tile)
    outer_filters ← tile_or_refuse (Outcome.done filters_tile)
    let spatial = range_from 2 (rank - 2)
    inner_image ← run (view_squeeze_dims find_position target (tile_view outer_image) spatial)
    squeezed ← run (view_squeeze_dims find_position target (tile_view outer_filters) spatial)
    inner_filters ← run (transpose find_position target squeezed)
    inner_output ← run (
        view_squeeze_dims find_position target (param_view (record { index = 2; spec = output }))
          spatial)
    n ← run (at filters.shape 0)
    let body_spec =
        primitive
          (record {
            typ = matmul true;
            spec_shape = take 2 image.shape ++ n ∷ [];
            dtypes = basics.dtypes;
          })
          ((view_spec inner_image).aux
            ∷ (view_spec inner_filters).aux
            ∷ (view_spec inner_output).aux
            ∷ [])
          serial
    applied (
        loop
          (record { axes = 7 ∷ 8 ∷ 0 ∷ 1 ∷ []; tile = outer_image }
            ∷ record { axes = 9 ∷ 8 ∷ 0 ∷ 1 ∷ []; tile = outer_filters }
            ∷ [])
          (record {
            spec = record { logical = body_spec; limits = spec.limits };
            args = inner_image ∷ inner_filters ∷ inner_output ∷ [];
          })
          false spec)

  unfoldable pub apply_spatial_split :
      {Kernel : Type 0} → Spec Level → List (TensorSpec Level) → Attempt (ImplNode Level Kernel)
  apply_spatial_split spec operands = elim spec.logical [
    | compose components auxes serial ↦ panicked
    | primitive basics auxes serial ↦ elim basics.typ [
      | conv accum ↦ demand accum >> spatial_body basics serial spec operands
      | matmul accum ↦ panicked
      | move_spec ↦ panicked
      | zero_spec ↦ panicked
    ]
  ]
