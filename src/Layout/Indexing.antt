-- ===== src/Layout/Indexing.antt =====
-- morello/src/layout.rs, `buffer_indexing_expr`: the offset of a point in a tensor's buffer.
--
-- An atom `BufferVar::Pt(d, _)` is the number `d` of its logical dimension; the opaque symbol, which
-- one expression shares, is left out.
pub mod RowMajor
use morello.Base.{
  ℕ, zero, suc, ◌+◌, ◌-◌, ◌*◌, ◌/◌, ◌%◌, ◌^◌, max, Bool, true, false, not, ◌&&◌, List, [], ◌∷◌,
  length, set, all_of, leb, ltb, ◌==◌, if◌then◌else◌, Outcome, done, panic, ◌>>=◌, ◌>>◌, assert, at,
}
use morello.Expr.{
  NonAffineExpr, affine, no_terms, constant_expr, from, leaf, mul, add, div, rem, convert,
}
use morello.Layout.{PhysDim, dynamic, packed, odd_even, Dim, Layout, expanded}

abbrev pub PointExpr : Type 0
PointExpr = NonAffineExpr ℕ

-- `max().unwrap() + 1`.
unfoldable pub logical_rank : List Dim → Outcome ℕ
logical_rank [] = panic
logical_rank (d ∷ []) = done (d.0 + 1)
logical_rank (d ∷ e ∷ dims) = do n ← logical_rank (e ∷ dims); done (max (d.0 + 1) n)

-- The term of an `OddEven` dimension.
unfoldable pub odd_even_term : ℕ → ℕ → PointExpr → Outcome PointExpr
odd_even_term strip new_remaining term = do
  assert (strip % 2 == 0)
  half ← convert (strip / 2)
  strip_term ← rem term strip
  parity ← rem strip_term 2
  linear_term ← div strip_term 2
  div (add ◌==◌ linear_term (mul parity half)) new_remaining

-- The term of one physical dimension: of its logical dimension, the size before and after it, the
-- whole size and its own size.
unfoldable pub dim_term : ℕ → PhysDim → ℕ → ℕ → ℕ → ℕ → Outcome PointExpr
dim_term logical_dim phys_dim prev_remaining new_remaining whole physical_size =
    (if not (prev_remaining == whole)
      then rem (from (leaf logical_dim)) prev_remaining
      else done (from (leaf logical_dim)))
    >>= λ term. elim phys_dim [
      | odd_even strip ↦ odd_even_term strip new_remaining term
      | dynamic ↦ if not (whole == physical_size) then div term new_remaining else done term
      | packed _ ↦ if not (whole == physical_size) then div term new_remaining else done term
    ]

-- The loop over the layout, zipped with its physical shape.
unfoldable pub indexing_loop :
    List ℕ → List Dim → List ℕ → List ℕ → PointExpr → Outcome (List ℕ × PointExpr)
indexing_loop concrete_shape ((logical_dim, phys_dim) ∷ dims) (physical_size ∷ physical) remaining
      working_expr =
    do
      prev_remaining ← at remaining logical_dim
      whole ← at concrete_shape logical_dim
      assert (leb prev_remaining whole)
      assert (not (physical_size == 0))
      assert (not (prev_remaining / physical_size == 0))
      term ←
          dim_term logical_dim phys_dim prev_remaining (prev_remaining / physical_size) whole
            physical_size
      size ← convert physical_size
      indexing_loop concrete_shape dims physical
          (set remaining logical_dim (prev_remaining / physical_size))
          (add ◌==◌ (mul working_expr size) term)
indexing_loop concrete_shape _ _ remaining working_expr = done (remaining, working_expr)

unfoldable pub buffer_indexing_expr : Layout → List ℕ → Outcome PointExpr
buffer_indexing_expr dims concrete_shape = do
  rank ← logical_rank dims
  assert (length concrete_shape == rank)
  physical ← expanded dims concrete_shape
  r ← indexing_loop concrete_shape dims physical concrete_shape (constant_expr 0)
  assert (all_of (λ d. d == 1) r.0)
  done r.1
