-- ===== src/Layout/Tests.antt =====
-- Layouts of two dimensions, and the theorems of Layout at them.
use morello.Base.{ℕ, ◌≡◌, refl, [], ◌∷◌, product, done, panic, arith, List}
use morello.Layout.{
  expanded, row_major_dims, dynamic_first, all_mentioned, no_consecutive, contiguous_full,
  merge_consecutive_dimensions, merge_loop, expand_loop, take_dim, Dim, dynamic, packed, ok, new,
  expand_physical_shape,
}
use morello.Layout.Expand.{expand_physical_shape-product}
use morello.Layout.Merge.{new-kept}
use morello.Layout.Update.{dim_drop}
use morello.Expr.Values.{value_expr}
use morello.Layout.Indexing.{PointExpr, buffer_indexing_expr}
use morello.Layout.Indexing.RowMajor.{row_major_offset, buffer_indexing_expr-row_major_offset}
use morello.Layout.Drop.{dim_drop-panics}

-- Dimension 1 in strips of 4.
abbrev packed_dims : List Dim
packed_dims = (0, dynamic) ∷ (1, dynamic) ∷ (1, packed 4) ∷ []

new_packed : new packed_dims ≡ done packed_dims
unfolding new dynamic_first all_mentioned no_consecutive contiguous_full
    merge_consecutive_dimensions merge_loop
new_packed = refl

new-kept_example : packed_dims ≡ packed_dims
new-kept_example = new-kept packed_dims new_packed

expand_packed : expand_physical_shape packed_dims (3 ∷ 8 ∷ []) ≡ done (ok (3 ∷ 2 ∷ 4 ∷ []))
unfolding expand_physical_shape expand_loop take_dim
expand_packed = refl

expand_physical_shape-product_example : product (3 ∷ 2 ∷ 4 ∷ []) ≡ product (3 ∷ 8 ∷ [])
expand_physical_shape-product_example =
    expand_physical_shape-product packed_dims (3 ∷ 8 ∷ []) (omega arith, (omega arith, tt))
      expand_packed

-- Dimension 0 of a row-major matrix is dropped, and dimension 1 stays.
dim_drop-panics_example : dim_drop ((0, dynamic) ∷ (1, dynamic) ∷ []) (0 ∷ []) 2 ≡ panic
dim_drop-panics_example =
    dim_drop-panics ((0, dynamic) ∷ (1, dynamic) ∷ []) (0 ∷ []) 2 0 1 refl refl refl (omega arith)

expanded_run : expanded (row_major_dims 2) (3 ∷ 4 ∷ []) ≡ done (3 ∷ 4 ∷ [])
unfolding expanded expand_physical_shape expand_loop take_dim
expanded_run = refl

buffer_indexing_expr-row_major_offset_example :
    (e : PointExpr) × (buffer_indexing_expr (row_major_dims 2) (3 ∷ 4 ∷ []) ≡ done e)
    × ((env : ℕ → ℕ) → value_expr env e ≡ row_major_offset env 0 (3 ∷ 4 ∷ []) 0)
buffer_indexing_expr-row_major_offset_example =
    buffer_indexing_expr-row_major_offset 3 (4 ∷ []) (omega arith) expanded_run
