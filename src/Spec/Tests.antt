-- ===== src/Spec/Tests.antt =====
-- Runs of the functions of morello/src/spec.rs, and the theorems at concrete Specs.
use morello.Base.{
  ℕ, suc, ◌++◌, ◌≤◌, ◌<◌, ◌^◌, if◌then◌else◌, ◌≡◌, ◌≢◌, refl, Bool, true, false, Option, none, some,
  List, [], ◌∷◌, done, at, arith,
}
use Prim.Native.Nat.{Ordering}
use morello.Common.{uint8, float32}
use morello.Tiling.{Tiling}
use morello.Memory.{standard, any_nonzero_levels_slower_than}
use morello.Layout.{
  Result, ok, dynamic, Layout, expand_physical_shape, expand_loop, take_dim, contiguous_full,
  row_major, new, dynamic_first, all_mentioned, no_consecutive, merge_consecutive_dimensions,
  merge_loop,
}
use morello.Target.{
  CpuMemoryLevel, level_cmp, vrf, rf, l1, gl, cpu_memory, vector_rf, cpu_vector_bytes,
}
use morello.TensorSpec.{TensorSpec, TensorSpecAux, new_noncanon_with_aux}
use morello.Spec.{
  PrimitiveBasics, matmul, conv, zero_spec, parameter_shapes, matmul_shapes, conv_shapes,
  conv_infer_output_shape, conv_spatial, spatial_of, dim_size, output_idx, infer_output_shape,
  input_tilings_for_tile_out, operand_count, input_count, zip_operands,
}
use morello.Spec.Keys.{
  SpecKey, conv_key, shape_coordinate, shape_apply, subtract_at, triple_key, accum_coordinate,
  basics_apply, basics_apply_inverse,
}
use morello.Spec.RoundTrip.{basics_apply_inverse-basics_apply}
use morello.Spec.Inference.{inputs_of, infer_output_shape-parameter_shapes}
use morello.Spec.TileOut.{Yields, input_tilings_for_tile_out-Yields}
use morello.Spec.Logical.{LogicalSpec, primitive, parameters, with_auxes}
use morello.Layout.Update.{FindPosition}
use morello.Spec.Canonical.{spec_canonicalize}
use morello.Spec.Limits.{levels_of, spec_canonicalize-limits}
use morello.Spec.Actions.{
  dim_range, powers_from, powers_below, range_start, trailing_zeros, dim_range-powers_from,
}
use morello.Spec.Replace.{logical_replace_io, logical_replace_io-parameters}

-- A convolution of 3 channels by 4 filters of 3x3.
abbrev conv_basics : PrimitiveBasics
conv_basics = record {
  typ = conv false;
  spec_shape = 1 ∷ 4 ∷ 3 ∷ 8 ∷ 8 ∷ 3 ∷ 3 ∷ [];
  dtypes = uint8 ∷ uint8 ∷ uint8 ∷ [];
}

abbrev conv_operands : List (List ℕ)
conv_operands = (1 ∷ 3 ∷ 8 ∷ 8 ∷ []) ∷ (4 ∷ 3 ∷ 3 ∷ 3 ∷ []) ∷ (1 ∷ 4 ∷ 6 ∷ 6 ∷ []) ∷ []

conv_shapes_run : parameter_shapes conv_basics ≡ done conv_operands
unfolding parameter_shapes conv_shapes conv_infer_output_shape conv_spatial spatial_of dim_size
conv_shapes_run = refl

not_zero : conv false ≢ zero_spec
not_zero h = cc

abbrev corner : Tiling
corner = record { shape = 1 ∷ 2 ∷ 3 ∷ 2 ∷ []; step_sizes = 1 ∷ 2 ∷ 3 ∷ 2 ∷ [] }

output_at : at conv_operands (output_idx (conv false)) ≡ done (1 ∷ 4 ∷ 6 ∷ 6 ∷ [])
unfolding output_idx
output_at = refl

input_tilings_for_tile_out-Yields_example :
    Yields
      (conv false)
      conv_operands
      (1 ∷ 2 ∷ 3 ∷ 2 ∷ [])
      (input_tilings_for_tile_out conv_basics corner)
input_tilings_for_tile_out-Yields_example =
    input_tilings_for_tile_out-Yields conv_basics corner not_zero (omega arith) tt
      (refl, omega arith) conv_shapes_run output_at (omega arith)

infer_output_shape-parameter_shapes_example :
    (out : List ℕ) × (at conv_operands (output_idx (conv false)) ≡ done out)
    × (infer_output_shape (conv false) (inputs_of conv_operands) ≡ done out)
infer_output_shape-parameter_shapes_example =
    infer_output_shape-parameter_shapes conv_basics not_zero conv_shapes_run

abbrev conv_point : SpecKey × List ℕ
conv_point = (conv_key uint8 uint8 uint8, 1 ∷ 0 ∷ 3 ∷ 2 ∷ 5 ∷ 5 ∷ 2 ∷ 2 ∷ [])

conv_apply_run : basics_apply false conv_basics ≡ done conv_point
unfolding basics_apply shape_apply shape_coordinate subtract_at triple_key accum_coordinate
conv_apply_run = refl

three_types : 3 ≡ operand_count (conv false)
unfolding operand_count input_count
three_types = refl

basics_apply_inverse-basics_apply_example : basics_apply_inverse false conv_point ≡ done conv_basics
basics_apply_inverse-basics_apply_example =
    basics_apply_inverse-basics_apply false conv_basics (omega arith) three_types conv_apply_run

-- A 2x4 by 4x2 product in main memory.
abbrev aux : TensorSpecAux CpuMemoryLevel
aux = record {
  contig = 2;
  aligned = true;
  level = gl;
  layout = (0, dynamic) ∷ (1, dynamic) ∷ [];
  vector_size = none;
}

abbrev product_basics : PrimitiveBasics
product_basics = record {
  typ = matmul true;
  spec_shape = 2 ∷ 4 ∷ 2 ∷ [];
  dtypes = float32 ∷ float32 ∷ float32 ∷ [];
}

abbrev tensor : List ℕ → TensorSpec CpuMemoryLevel
tensor shape = record { shape = shape; dtype = float32; aux = aux }

abbrev product_operands : List (TensorSpec CpuMemoryLevel)
product_operands = tensor (2 ∷ 4 ∷ []) ∷ tensor (4 ∷ 2 ∷ []) ∷ tensor (2 ∷ 2 ∷ []) ∷ []

parameters_run :
    parameters cpu_memory (primitive product_basics (aux ∷ aux ∷ aux ∷ []) true)
    ≡ done product_operands
unfolding parameters parameter_shapes matmul_shapes with_auxes new_noncanon_with_aux vector_rf
    cpu_vector_bytes
parameters_run = refl

three_operands : 3 ≡ operand_count (matmul true)
unfolding operand_count input_count
three_operands = refl

logical_replace_io-parameters_example :
    (3 ≡ operand_count (matmul true))
    × (logical_replace_io cpu_memory
          (λ s t. true)
          (primitive product_basics (aux ∷ aux ∷ aux ∷ []) true)
          product_operands
        ≡ done (primitive product_basics (aux ∷ aux ∷ aux ∷ []) true))
logical_replace_io-parameters_example =
    logical_replace_io-parameters cpu_memory (λ s t. true) (λ t. refl) product_basics
      (aux ∷ aux ∷ aux ∷ []) true (three_operands, three_operands) parameters_run

-- A search from the front, for `find_position`.
abbrev search_from : ℕ → FindPosition
search_from i test [] = none
search_from i test (x ∷ xs) =
    let rest = search_from (suc i) test xs in if test x then some (i, x) else rest

abbrev is_lt : Option Ordering → Bool
is_lt (some Ordering.lt) = true
is_lt _ = false

abbrev in_cache : TensorSpecAux CpuMemoryLevel
in_cache = record aux { level = l1 }

abbrev cached : LogicalSpec CpuMemoryLevel
cached = primitive product_basics (in_cache ∷ in_cache ∷ in_cache ∷ []) true

-- The limit of main memory, which is slower than the cache, becomes 0.
canonical_run :
    spec_canonicalize
      (search_from 0)
      cpu_memory
      (λ a b. is_lt (level_cmp a b))
      (rf ∷ vrf ∷ l1 ∷ gl ∷ [])
      (record { logical = cached; limits = standard (7 ∷ 11 ∷ 16 ∷ 31 ∷ []) })
    ≡ done (ok (record { logical = cached; limits = standard (7 ∷ 11 ∷ 16 ∷ 0 ∷ []) }))
unfolding spec_canonicalize parameters parameter_shapes matmul_shapes with_auxes
    new_noncanon_with_aux vector_rf cpu_vector_bytes morello.Memory.zero_levels_slower_than_all
    morello.Memory.zero_loop level_cmp morello.Memory.set_unscaled morello.Memory.get_unscaled
    morello.Spec.Canonical.logical_canonicalize morello.Spec.Canonical.canonical_auxes
    morello.Spec.Canonical.canonicalize_auxes morello.TensorSpec.aux_canonicalize
    morello.Layout.Update.update_for_tiling
    morello.Layout.Update.lower_contig_to_first_broken_dimension morello.Layout.Update.clear_loop
    morello.Layout.Update.cleared_at morello.Layout.Update.drop_unneeded_packings
    morello.Layout.Update.first_contig_idx morello.Layout.Update.increase_contig_through_ones
    morello.Layout.Update.increase_loop morello.Layout.Update.insert_dim
    morello.Layout.Update.packings morello.Layout.Update.reorder_loop
    morello.Layout.Update.reorder_size_one_dynamic_dimensions morello.Layout.Update.retain_loop
    morello.Layout.Update.same_shape morello.Layout.Update.sort_dims all_mentioned contiguous_full
    dynamic_first expand_loop expand_physical_shape morello.Layout.expanded
    merge_consecutive_dimensions merge_loop new no_consecutive row_major take_dim
    morello.Utils.Bits.bit_length morello.Utils.Bits.leading_zeros
canonical_run = refl

spec_canonicalize-limits_example :
    (bs : List (TensorSpecAux CpuMemoryLevel)) × (cached ≡ primitive product_basics bs true)
    × (levels_of bs ≡ l1 ∷ l1 ∷ l1 ∷ [])
    × (any_nonzero_levels_slower_than
          (λ a b. is_lt (level_cmp a b))
          (rf ∷ vrf ∷ l1 ∷ gl ∷ [])
          (standard (7 ∷ 11 ∷ 16 ∷ 0 ∷ []))
          (levels_of bs)
        ≡ done false)
spec_canonicalize-limits_example =
    spec_canonicalize-limits (search_from 0) cpu_memory (λ a b. is_lt (level_cmp a b))
      (rf ∷ vrf ∷ l1 ∷ gl ∷ []) product_basics (in_cache ∷ in_cache ∷ in_cache ∷ []) true
      (7 ∷ 11 ∷ 16 ∷ 31 ∷ []) (three_operands, three_operands) refl canonical_run

dim_range-powers_from_example :
    (n : ℕ) × (dim_range 100 true none ≡ done (powers_from 0 n ++ (100 ∷ [])))
    × (100 ≤ 2 ^ n)
    × ((i : ℕ) → i < n → 2 ^ i < 100)
dim_range-powers_from_example = dim_range-powers_from 100 true (omega arith)

-- A depth counts down from a power of two, and panics at any other size.
dim_range_depth_run : dim_range 16 false (some 2) ≡ done (4 ∷ 8 ∷ [])
unfolding dim_range range_start powers_below trailing_zeros morello.Utils.Bits.is_power_of_two
dim_range_depth_run = refl
