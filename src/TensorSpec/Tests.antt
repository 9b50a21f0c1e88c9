-- ===== src/TensorSpec/Tests.antt =====
-- Runs of the functions of morello/src/tensorspec.rs and morello/src/alignment.rs, and the theorems at
-- concrete tensors.
use morello.Base.{
  ℕ, suc, ◌+◌, ◌*◌, ◌%◌, ◌^◌, ◌≡◌, refl, true, none, some, List, [], ◌∷◌, ◌++◌, product,
  if◌then◌else◌, ◌==◌, done, arith, ceiling, ceiling-IsDivCeil, ◌≤◌, ◌<◌,
}
use morello.Common.{uint8, size}
use morello.Layout.{
  ok, dynamic, Layout, expand_physical_shape, expand_loop, take_dim, contiguous_full, row_major,
  new, dynamic_first, all_mentioned, no_consecutive, merge_consecutive_dimensions, merge_loop,
}
use morello.Layout.Update.{FindPosition, dim_drop, retain_dims, count_dropped}
use morello.Target.{CpuMemoryLevel, gl, cpu_memory, vector_rf, cpu_vector_bytes}
use morello.TensorSpec.{
  TensorSpec, new_noncanon_with_aux, aux_canonicalize, canonicalize, new_canon, is_contiguous,
}
use morello.TensorSpec.Squeeze.{remove, ascends, squeeze_loop, squeeze_dims, squeeze_dims-kept}
use morello.TensorSpec.Alignment.{aligned_approx, aligned_approx-innermost}
use morello.TensorSpec.CacheLines.{estimate_cache_lines, estimate_cache_lines-full}

-- A search from the front, for `find_position`.
abbrev search_from : ℕ → FindPosition
search_from i test [] = none
search_from i test (x ∷ xs) =
    let rest = search_from (suc i) test xs in if test x then some (i, x) else rest

abbrev rows : ℕ → Layout → List ℕ → TensorSpec CpuMemoryLevel
rows contig layout shape = record {
  shape = shape;
  dtype = uint8;
  aux = record { contig = contig; aligned = true; level = gl; layout = layout; vector_size = none };
}

abbrev two_dims : Layout
two_dims = (0, dynamic) ∷ (1, dynamic) ∷ []

abbrev three_dims : Layout
three_dims = (0, dynamic) ∷ (1, dynamic) ∷ (2, dynamic) ∷ []

-- The last of three dimensions is dropped.
squeeze_run :
    squeeze_dims (search_from 0) cpu_memory (rows 3 three_dims (2 ∷ 4 ∷ 1 ∷ [])) (2 ∷ [])
    ≡ done (rows 2 two_dims (2 ∷ 4 ∷ []))
unfolding squeeze_dims ascends squeeze_loop remove dim_drop retain_dims count_dropped new_canon
    canonicalize new_noncanon_with_aux vector_rf cpu_vector_bytes aux_canonicalize
    morello.Layout.Update.update_for_tiling
    morello.Layout.Update.lower_contig_to_first_broken_dimension morello.Layout.Update.clear_loop
    morello.Layout.Update.cleared_at morello.Layout.Update.drop_unneeded_packings
    morello.Layout.Update.first_contig_idx morello.Layout.Update.increase_contig_through_ones
    morello.Layout.Update.increase_loop morello.Layout.Update.insert_dim
    morello.Layout.Update.packings morello.Layout.Update.reorder_loop
    morello.Layout.Update.reorder_size_one_dynamic_dimensions morello.Layout.Update.retain_loop
    morello.Layout.Update.same_shape morello.Layout.Update.sort_dims all_mentioned contiguous_full
    dynamic_first expand_loop expand_physical_shape morello.Layout.expanded
    merge_consecutive_dimensions merge_loop new no_consecutive row_major take_dim
squeeze_run = refl

squeeze_dims-kept_example :
    (product (2 ∷ 4 ∷ []) ≡ product (2 ∷ 4 ∷ 1 ∷ [])) × (2 + 1 ≡ 3) × (uint8 ≡ uint8) × (gl ≡ gl)
squeeze_dims-kept_example =
    squeeze_dims-kept (search_from 0) cpu_memory (rows 3 three_dims (2 ∷ 4 ∷ 1 ∷ [])) (2 ∷ [])
      squeeze_run

expand_rows : expand_physical_shape two_dims (4 ∷ 32 ∷ []) ≡ done (ok ((4 ∷ []) ++ 32 ∷ []))
unfolding expand_physical_shape expand_loop take_dim
expand_rows = refl

rows_contiguous : is_contiguous (rows 2 two_dims (4 ∷ 32 ∷ [])) ≡ done true
unfolding is_contiguous contiguous_full
rows_contiguous = refl

-- The tiles of one byte each count as aligned to 32 bytes.
aligned_approx-innermost_example :
    aligned_approx 32 (1 ∷ 1 ∷ []) (1 ∷ 1 ∷ []) (rows 2 two_dims (4 ∷ 32 ∷ []))
    ≡ done (ok (size uint8 * 32 % 32 == 0))
aligned_approx-innermost_example =
    aligned_approx-innermost 32 (2 ^ 27) (1 ∷ 1 ∷ []) (1 ∷ 1 ∷ []) (rows 2 two_dims (4 ∷ 32 ∷ []))
      (4 ∷ []) 32 (omega arith, refl) (refl, refl) (rows_contiguous, refl) expand_rows

expand_floats : expand_physical_shape two_dims (2 ∷ 8 ∷ []) ≡ done (ok (2 ∷ 8 ∷ []))
unfolding expand_physical_shape expand_loop take_dim
expand_floats = refl

-- 16 floats fill two lines of 32 bytes; the estimate is 8.
estimate_cache_lines-full_example :
    (lines : ℕ) × (16 * 4 ≤ lines * 32)
    × ((n : ℕ) → 16 * 4 ≤ n * 32 → lines ≤ n)
    × (estimate_cache_lines ceiling 32 two_dims (2 ∷ 8 ∷ []) 4 2 ≡ done (4 * lines))
    × (lines < 4 * lines)
estimate_cache_lines-full_example =
    estimate_cache_lines-full ceiling 32 two_dims (2 ∷ 8 ∷ []) 4 ceiling-IsDivCeil (omega arith)
      (omega arith) (omega arith) expand_floats (omega arith) (omega arith)
