-- ===== src/Scheduling/Tests.antt =====
-- Runs of morello/src/scheduling.rs, and the theorems at concrete actions.
use Prim.Native.Nat.{Ordering}
use morello.Base.{
  ℕ, suc, ◌≡◌, refl, Bool, true, false, Option, none, some, List, [], ◌∷◌, if◌then◌else◌, ◌==◌, ◌-◌,
  ◌&&◌, ◌||◌, not, length, at, get_elem?, All, arith, Outcome,
}
use morello.Common.{float32}
use morello.Memory.{standard}
use morello.Layout.{Layout, dynamic}
use morello.Layout.Update.{FindPosition}
use morello.Target.{Target, CpuMemoryLevel, rf, vrf, l1, gl, cpu_memory, level_cmp, level_apply}
use morello.TensorSpec.{TensorSpec, TensorSpecAux}
use morello.Common.{Dtype}
use morello.TensorSpec.Squeeze.{IsKept}
use morello.Views.{Param, param_view}
use morello.Spec.{PrimitiveBasics, matmul, move_spec}
use morello.Spec.Logical.{
  Spec, primitive, parameters, logical_output_idx, logical_output_is_read, logical_operand_count,
}
use morello.Scheduling.Actions.{gen_tile_sizes}
use morello.Scheduling.TileSizes.{IsTile, gen_tile_sizes-IsTile}
use morello.Scheduling.{
  TileOut, Destination, Attempt, applied, single_loop, parallel_of, tile_out, Action, move,
  ImplNode, loop, move_let, new_tensor,
}
use morello.Scheduling.Tiles.{tiled_shape}
use morello.Scheduling.Moves.{move_is_cache_miss}
use morello.Scheduling.Loops.{HasTiledBody, argument_shapes, apply-tile_out}
use morello.Scheduling.Copies.{CopiesAround, apply-move}
use morello.Scheduling.Apply.{apply}

-- A search from the front, for `find_position`.
abbrev search_from : ℕ → FindPosition
search_from i test [] = none
search_from i test (x ∷ xs) =
    let rest = search_from (suc i) test xs in if test x then some (i, x) else rest

abbrev is_lt : Option Ordering → Bool
is_lt (some Ordering.lt) = true
is_lt _ = false

abbrev cpu : Target CpuMemoryLevel
cpu = record {
  memory = cpu_memory;
  line = 32;
  levels = rf ∷ vrf ∷ l1 ∷ gl ∷ [];
  level_lt = λ a b. is_lt (level_cmp a b);
  same_level = λ a b. level_apply a == level_apply b;
}

abbrev aux : TensorSpecAux CpuMemoryLevel
aux = record {
  contig = 0;
  aligned = true;
  level = gl;
  layout = (0, dynamic) ∷ (1, dynamic) ∷ [];
  vector_size = none;
}

abbrev three_floats : List Dtype
three_floats = float32 ∷ float32 ∷ float32 ∷ []

abbrev product_basics : PrimitiveBasics
product_basics = record {
  typ = matmul true;
  spec_shape = 2 ∷ 4 ∷ 8 ∷ [];
  dtypes = float32 ∷ float32 ∷ float32 ∷ [];
}

abbrev product_spec : Spec CpuMemoryLevel
product_spec = record {
  logical = primitive product_basics (aux ∷ aux ∷ aux ∷ []) false;
  limits = standard (7 ∷ 11 ∷ 16 ∷ 31 ∷ []);
}

abbrev unaligned : TensorSpecAux CpuMemoryLevel
unaligned = record aux { aligned = false }

-- Column-major, in the cache.
abbrev cached : TensorSpecAux CpuMemoryLevel
cached = record {
  contig = 2;
  aligned = true;
  level = l1;
  layout = (1, dynamic) ∷ (0, dynamic) ∷ [];
  vector_size = none;
}

abbrev tensor : List ℕ → TensorSpecAux CpuMemoryLevel → TensorSpec CpuMemoryLevel
tensor shape a = record { shape = shape; dtype = float32; aux = a }

abbrev param : ℕ → TensorSpec CpuMemoryLevel → Param CpuMemoryLevel
param i t = record { index = i; spec = t }

abbrev half_of_output : TileOut
half_of_output = single_loop 1 4 true

-- The left operand is not tiled, but takes a loop dimension.
abbrev tiled_node : ImplNode CpuMemoryLevel ℕ
tiled_node =
    loop
      ((record {
        axes = 3 ∷ 1 ∷ [];
        tile = (record {
          shape = 4 ∷ 4 ∷ [];
          step_sizes = 4 ∷ 4 ∷ [];
          view = (param 1 (tensor (4 ∷ 8 ∷ []) aux));
          spec = (tensor (4 ∷ 4 ∷ []) unaligned);
        });
      })
        ∷ (record {
          axes = 0 ∷ 1 ∷ [];
          tile = (record {
            shape = 2 ∷ 4 ∷ [];
            step_sizes = 2 ∷ 4 ∷ [];
            view = (param 2 (tensor (2 ∷ 8 ∷ []) aux));
            spec = (tensor (2 ∷ 4 ∷ []) unaligned);
          });
        })
        ∷ [])
      (record {
        spec = (record {
          logical =
              primitive
                (record { typ = matmul true; spec_shape = 2 ∷ 4 ∷ 4 ∷ []; dtypes = three_floats })
                (aux ∷ unaligned ∷ unaligned ∷ []) true;
          limits = standard (7 ∷ 11 ∷ 16 ∷ 31 ∷ []);
        });
        args =
            param_view (param 0 (tensor (2 ∷ 4 ∷ []) aux))
            ∷ param_view (param 1 (tensor (4 ∷ 4 ∷ []) unaligned))
            ∷ param_view (param 2 (tensor (2 ∷ 4 ∷ []) unaligned))
            ∷ [];
      })
      true product_spec

abbrev to_cache : Destination CpuMemoryLevel
to_cache = record {
  source_idx = 2;
  dtype = float32;
  level = l1;
  layout = (1, dynamic) ∷ (0, dynamic) ∷ [];
  vector_size = none;
}

abbrev moved_node : ImplNode CpuMemoryLevel ℕ
moved_node = move_let (record {
  parameter_idx = 2;
  source_spec = (tensor (2 ∷ 8 ∷ []) aux);
  introduced = new_tensor (tensor (2 ∷ 8 ∷ []) cached);
  has_prologue = true;
  has_epilogue = true;
  children =
      (record {
        spec = (record {
          logical =
              primitive
                (record {
                  typ = move_spec;
                  spec_shape = 2 ∷ 8 ∷ [];
                  dtypes = float32 ∷ float32 ∷ [];
                })
                (aux ∷ cached ∷ []) false;
          limits = standard (7 ∷ 11 ∷ 15 ∷ 31 ∷ []);
        });
        args =
            param_view (param 0 (tensor (2 ∷ 8 ∷ []) aux))
            ∷ param_view (param 1 (tensor (2 ∷ 8 ∷ []) cached))
            ∷ [];
      })
      ∷ (record {
        spec = (record {
          logical =
              primitive
                (record { typ = matmul true; spec_shape = 2 ∷ 4 ∷ 8 ∷ []; dtypes = three_floats })
                (aux ∷ aux ∷ cached ∷ []) false;
          limits = standard (7 ∷ 11 ∷ 15 ∷ 31 ∷ []);
        });
        args =
            param_view (param 0 (tensor (2 ∷ 4 ∷ []) aux))
            ∷ param_view (param 1 (tensor (4 ∷ 8 ∷ []) aux))
            ∷ param_view (param 2 (tensor (2 ∷ 8 ∷ []) cached))
            ∷ [];
      })
      ∷ (record {
        spec = (record {
          logical =
              primitive
                (record {
                  typ = move_spec;
                  spec_shape = 2 ∷ 8 ∷ [];
                  dtypes = float32 ∷ float32 ∷ [];
                })
                (cached ∷ aux ∷ []) false;
          limits = standard (7 ∷ 11 ∷ 15 ∷ 31 ∷ []);
        });
        args =
            param_view (param 1 (tensor (2 ∷ 8 ∷ []) cached))
            ∷ param_view (param 0 (tensor (2 ∷ 8 ∷ []) aux))
            ∷ [];
      })
      ∷ [];
  spec = product_spec;
})

tiled_run : apply (search_from 0) cpu (tile_out half_of_output) product_spec ≡ applied tiled_node
unfolding morello.Spec.input_count morello.Spec.operand_count morello.Spec.output_idx
    morello.Spec.dim_size morello.Spec.matmul_output morello.Spec.conv_output
    morello.Spec.infer_output_shape morello.Spec.matmul_shapes morello.Spec.parameter_shapes
    morello.Spec.matmul_spec_shape morello.Spec.image_and_filters morello.Spec.move_spec_shape
    morello.Spec.replaced_shape morello.Spec.replace_io morello.Spec.matmul_input_tilings
    morello.Spec.input_tilings_for_tile_out morello.Spec.Logical.compose_operand_count
    morello.Spec.Logical.compose_loop morello.Spec.Logical.compose_operands
    morello.Spec.Logical.serial_only morello.Spec.Logical.set_serial_only
    morello.Spec.Logical.logical_operand_count morello.Spec.Logical.logical_output_idx
    morello.Spec.Logical.with_auxes morello.Spec.Logical.parameters morello.Spec.Logical.without
    morello.Spec.Logical.inputs morello.Spec.Logical.output morello.Spec.Replace.replace_loop
    morello.Spec.Replace.output_matches morello.Spec.Replace.replace_components
    morello.Spec.Replace.all_same morello.Spec.Replace.replaced_spec
    morello.Spec.Replace.logical_replace_io morello.Spec.Canonical.canonicalize_auxes
    morello.Spec.Canonical.canonical_auxes morello.Spec.Canonical.logical_canonicalize
    morello.Spec.Canonical.auxes_are_canonical morello.Spec.Canonical.logical_is_canonical
    morello.Spec.Canonical.spec_is_canonical morello.Layout.take_dim morello.Layout.expand_loop
    morello.Layout.expand_physical_shape morello.Layout.applies_to_shape morello.Layout.expanded
    morello.Layout.expand_dim_loop morello.Layout.expand_logical_dim_physical_shape
    morello.Layout.find_index morello.Layout.physical_size morello.Layout.dynamic_first
    morello.Layout.all_mentioned morello.Layout.no_consecutive morello.Layout.merge_loop
    morello.Layout.merge_consecutive_dimensions morello.Layout.contiguous_full morello.Layout.new
    morello.Layout.row_major morello.Layout.is_row_major_from morello.Layout.is_row_major
    morello.Layout.Update.first_contig_idx morello.Layout.Update.increase_loop
    morello.Layout.Update.increase_contig_through_ones morello.Layout.Update.packings
    morello.Layout.Update.cleared_at morello.Layout.Update.clear_loop
    morello.Layout.Update.retain_loop morello.Layout.Update.drop_unneeded_packings
    morello.Layout.Update.insert_dim morello.Layout.Update.sort_dims
    morello.Layout.Update.reorder_loop morello.Layout.Update.reorder_size_one_dynamic_dimensions
    morello.Layout.Update.descends morello.Layout.Update.noncanon_loop
    morello.Layout.Update.has_noncanon_size_one_dynamic_dimensions morello.Layout.Update.same_shape
    morello.Layout.Update.lower_contig_to_first_broken_dimension
    morello.Layout.Update.update_for_tiling morello.TensorSpec.same_phys
    morello.TensorSpec.same_layout morello.TensorSpec.all_at_most morello.TensorSpec.whole_packing
    morello.TensorSpec.has_packings morello.TensorSpec.packed_whole morello.TensorSpec.is_contiguous
    morello.TensorSpec.unpacked_is_canonical morello.TensorSpec.aux_is_canonical
    morello.TensorSpec.new_noncanon_with_aux morello.TensorSpec.is_valid_tile_shape
    morello.TensorSpec.aux_canonicalize morello.TensorSpec.shrink
    morello.TensorSpec.Alignment.stride_loop morello.TensorSpec.Alignment.aligned_approx
    morello.Views.tile_new morello.Views.tiling_apply morello.Scheduling.parallel_of
    morello.Scheduling.same_tensor_spec morello.Scheduling.Tiles.tiled_shape
    morello.Scheduling.Tiles.loop_axes morello.Scheduling.Tiles.params_from
    morello.Scheduling.Tiles.as_views morello.Scheduling.Tiles.logical_input_tilings
    morello.Scheduling.Tiles.default_app morello.Scheduling.Tiles.operand_tile
    morello.Scheduling.Tiles.input_tiles morello.Scheduling.Tiles.check_tile
    morello.Scheduling.Tiles.tiles_around morello.Scheduling.Tiles.tile_out_tiles
    morello.Scheduling.Tiles.shrink_operands morello.Scheduling.Tiles.tiled_spec
    morello.Scheduling.Tiles.apply_tile_out morello.Scheduling.Apply.apply_case
    morello.Scheduling.Apply.apply morello.Memory.new morello.Memory.get_unscaled
    morello.Memory.nonzero_loop morello.Memory.any_nonzero_levels_slower_than
    morello.Tiling.new_sliding morello.Tiling.new_simple morello.Tiling.is_simple
    morello.Tiling.steps_dim morello.Tiling.steps_from morello.Tiling.steps
    morello.Utils.Bits.leading_zeros morello.Utils.Bits.bit_length
    morello.Utils.Bits.bit_length_inverse morello.Common.size morello.Target.vector_rf
    morello.Target.line_size morello.Target.level_cmp morello.Target.level_apply
    morello.Target.cpu_can_parallel_tile morello.Target.cpu_is_addressed
    morello.Target.cpu_vector_bytes morello.Common.dtype_apply
tiled_run = refl

moved_run : apply (search_from 0) cpu (move to_cache) product_spec ≡ applied moved_node
unfolding morello.Spec.input_count morello.Spec.operand_count morello.Spec.output_idx
    morello.Spec.output_is_read morello.Spec.dim_size morello.Spec.matmul_output
    morello.Spec.conv_output morello.Spec.infer_output_shape morello.Spec.matmul_shapes
    morello.Spec.parameter_shapes morello.Spec.matmul_spec_shape morello.Spec.move_spec_shape
    morello.Spec.replaced_shape morello.Spec.replace_io morello.Spec.Logical.compose_operand_count
    morello.Spec.Logical.compose_loop morello.Spec.Logical.compose_operands
    morello.Spec.Logical.serial_only morello.Spec.Logical.logical_operand_count
    morello.Spec.Logical.logical_output_idx morello.Spec.Logical.logical_output_is_read
    morello.Spec.Logical.with_auxes morello.Spec.Logical.parameters morello.Spec.Logical.without
    morello.Spec.Logical.inputs morello.Spec.Logical.output morello.Spec.Replace.replace_loop
    morello.Spec.Replace.output_matches morello.Spec.Replace.replace_components
    morello.Spec.Replace.all_same morello.Spec.Replace.replaced_spec
    morello.Spec.Replace.logical_replace_io morello.Spec.Canonical.all_equal_by
    morello.Spec.Canonical.all_full morello.Spec.Canonical.is_bitwise_move
    morello.Spec.Canonical.set_layouts morello.Spec.Canonical.to_bitwise_move
    morello.Spec.Canonical.canonicalize_auxes morello.Spec.Canonical.canonical_auxes
    morello.Spec.Canonical.logical_canonicalize morello.Spec.Canonical.auxes_are_canonical
    morello.Spec.Canonical.all_row_major morello.Spec.Canonical.logical_is_canonical
    morello.Spec.Canonical.spec_canonicalize morello.Spec.Canonical.spec_is_canonical
    morello.Layout.take_dim morello.Layout.expand_loop morello.Layout.expand_physical_shape
    morello.Layout.applies_to_shape morello.Layout.expanded morello.Layout.expand_dim_loop
    morello.Layout.expand_logical_dim_physical_shape morello.Layout.find_index
    morello.Layout.physical_size morello.Layout.dynamic_first morello.Layout.all_mentioned
    morello.Layout.no_consecutive morello.Layout.merge_loop
    morello.Layout.merge_consecutive_dimensions morello.Layout.contiguous_full morello.Layout.new
    morello.Layout.row_major morello.Layout.is_row_major_from morello.Layout.is_row_major
    morello.Layout.Update.first_contig_idx morello.Layout.Update.increase_loop
    morello.Layout.Update.increase_contig_through_ones morello.Layout.Update.packings
    morello.Layout.Update.cleared_at morello.Layout.Update.clear_loop
    morello.Layout.Update.retain_loop morello.Layout.Update.drop_unneeded_packings
    morello.Layout.Update.insert_dim morello.Layout.Update.sort_dims
    morello.Layout.Update.reorder_loop morello.Layout.Update.reorder_size_one_dynamic_dimensions
    morello.Layout.Update.descends morello.Layout.Update.noncanon_loop
    morello.Layout.Update.has_noncanon_size_one_dynamic_dimensions morello.Layout.Update.same_shape
    morello.Layout.Update.lower_contig_to_first_broken_dimension
    morello.Layout.Update.update_for_tiling morello.TensorSpec.same_phys
    morello.TensorSpec.same_layout morello.TensorSpec.product_u32 morello.TensorSpec.volume
    morello.TensorSpec.whole_packing morello.TensorSpec.has_packings morello.TensorSpec.packed_whole
    morello.TensorSpec.unpacked_is_canonical morello.TensorSpec.aux_is_canonical
    morello.TensorSpec.new_noncanon_with_aux morello.TensorSpec.aux_canonicalize
    morello.TensorSpec.canonicalize morello.TensorSpec.new_canon morello.Scheduling.parallel_of
    morello.Scheduling.same_tensor_spec morello.Scheduling.Tiles.params_from
    morello.Scheduling.Tiles.as_views morello.Scheduling.Moves.level_position
    morello.Scheduling.Moves.move_let_new morello.Scheduling.Moves.move_is_cache_miss
    morello.Scheduling.Moves.move_gens_prologue morello.Scheduling.Moves.move_gens_epilogue
    morello.Scheduling.Moves.lower_limits morello.Scheduling.Moves.movelet_inner_tensorspec
    morello.Scheduling.Moves.logue_app morello.Scheduling.Moves.make_logue
    morello.Scheduling.Moves.introduced_operand morello.Scheduling.Moves.moved_body
    morello.Scheduling.Moves.make_move morello.Scheduling.Moves.check_move
    morello.Scheduling.Moves.apply_move morello.Scheduling.Apply.apply_case
    morello.Scheduling.Apply.apply morello.Memory.new morello.Memory.get_unscaled
    morello.Memory.set_unscaled morello.Memory.zero_loop morello.Memory.zero_levels_slower_than_all
    morello.Memory.nonzero_loop morello.Memory.any_nonzero_levels_slower_than
    morello.Utils.Bits.leading_zeros morello.Utils.Bits.bit_length
    morello.Utils.Bits.bit_length_inverse morello.Utils.Bits.prev_power_of_two morello.Common.size
    morello.Common.dtype_apply morello.Target.vector_rf morello.Target.level_cmp
    morello.Target.level_apply morello.Target.cpu_can_parallel_tile morello.Target.cpu_is_addressed
    morello.Target.cpu_vector_bytes
moved_run = refl

apply-tile_out_example :
    (operands : List (TensorSpec CpuMemoryLevel)) × (idx : ℕ) × (current : TensorSpec
      CpuMemoryLevel)
    × (shape : List ℕ) × (parameters cpu.memory product_spec.logical ≡ Outcome.done operands)
    × (logical_output_idx product_spec.logical ≡ Outcome.done idx)
    × (at operands idx ≡ Outcome.done current)
    × (tiled_shape half_of_output current.shape ≡ applied shape)
    × (get_elem? (argument_shapes tiled_node) idx ≡ some shape)
    × HasTiledBody cpu product_spec operands (parallel_of half_of_output) tiled_node
apply-tile_out_example = apply-tile_out (search_from 0) cpu half_of_output product_spec tiled_run

apply-move_example :
    (operands : List (TensorSpec CpuMemoryLevel)) × (outer : TensorSpec CpuMemoryLevel)
    × (inner : TensorSpec CpuMemoryLevel) × (read reads : Bool) × (n : ℕ) × (writes : Bool)
    × (parameters cpu.memory product_spec.logical ≡ Outcome.done operands)
    × (at operands 2 ≡ Outcome.done outer)
    × IsKept inner outer.shape float32 l1
    × (logical_output_is_read product_spec.logical ≡ Outcome.done read)
    × (logical_operand_count product_spec.logical ≡ Outcome.done n)
    × (reads
        ≡ ((not (2 == length operands - 1) || read) && not (move_is_cache_miss cpu outer to_cache)))
    × (writes ≡ (2 == n - 1 && not (move_is_cache_miss cpu outer to_cache)))
    × CopiesAround cpu to_cache product_spec.logical operands outer inner reads writes moved_node
apply-move_example = apply-move (search_from 0) cpu to_cache product_spec moved_run

gen_tile_sizes_run :
    gen_tile_sizes (2 ∷ 3 ∷ []) true true none
    ≡ Outcome.done ((1 ∷ 1 ∷ []) ∷ (2 ∷ 1 ∷ []) ∷ (1 ∷ 2 ∷ []) ∷ (2 ∷ 2 ∷ []) ∷ (1 ∷ 3 ∷ []) ∷ [])
unfolding gen_tile_sizes morello.Layout.Update.same_shape morello.Spec.Actions.dim_range
    morello.Spec.Actions.range_start morello.Spec.Actions.powers_below
gen_tile_sizes_run = refl

gen_tile_sizes-IsTile_example :
    (shapes : List (List ℕ)) × (gen_tile_sizes (2 ∷ 3 ∷ []) true true none ≡ Outcome.done shapes)
    × All (IsTile true (2 ∷ 3 ∷ [])) shapes
gen_tile_sizes-IsTile_example = gen_tile_sizes-IsTile (2 ∷ 3 ∷ []) true true (omega arith)
