-- ===== src/Views.antt =====
-- morello/src/views.rs: references to tensors, and what tiling, squeezing and transposing makes of
-- them.
--
-- The `OpaqueSymbol` of a view, which only code generation reads, is left out, and so are `bind`
-- and the indexing expressions.
use morello.Base.{ℕ, List, [], ◌∷◌, Outcome, done, panic, ◌>>=◌}
use morello.Layout.{Result, ok, err}
use morello.Layout.Update.{FindPosition, swap_dims}
use morello.Tiling.{Tiling}
use morello.Target.{Target}
use morello.TensorSpec.{TensorSpec, shrink, new_canon}
use morello.TensorSpec.Squeeze.{squeeze_dims}
use morello.TensorSpec.Alignment.{aligned_approx}

pub record Param (Level : Type 0) : Type 0 where
  pub index : ℕ
  pub spec : TensorSpec Level

pub record Tile (Level : Type 0) : Type 0 where
  pub shape : List ℕ
  pub step_sizes : List ℕ
  pub view : Param Level
  pub spec : TensorSpec Level

pub data View (Level : Type 0) : Type 0 where
  param_view : Param Level → View Level
  tensor_view : TensorSpec Level → View Level
  cache_view : Param Level → TensorSpec Level → View Level
  tile_view : Tile Level → View Level
  squeeze_dims_view : View Level → List ℕ → TensorSpec Level → View Level
  transpose_view : View Level → TensorSpec Level → View Level

unfoldable pub view_spec : {Level : Type 0} → View Level → TensorSpec Level
view_spec (param_view p) = p.spec
view_spec (tensor_view t) = t
view_spec (cache_view source t) = t
view_spec (tile_view t) = t.spec
view_spec (squeeze_dims_view v dims t) = t
view_spec (transpose_view v t) = t

module _ (find_position : FindPosition) {Level : Type 0} (target : Target Level) where
  -- `Tile::new`, of a parameter.
  unfoldable pub tile_new : List ℕ → List ℕ → Param Level → Outcome (Result (Tile Level))
  tile_new shape step_sizes view = aligned_approx target.line shape step_sizes view.spec >>= λ r.
      elim r [
        | err e ↦ done (err e)
        | ok aligned ↦ shrink find_position view.spec shape aligned >>= λ s. elim s [
          | err e ↦ done (err e)
          | ok spec ↦
              done
                (ok (record { shape = shape; step_sizes = step_sizes; view = view; spec = spec }))
        ]
      ]

  -- `Tiling::apply`.
  unfoldable pub tiling_apply : Tiling → Param Level → Outcome (Result (Tile Level))
  tiling_apply t view = tile_new t.shape t.step_sizes view

  unfoldable pub view_squeeze_dims : View Level → List ℕ → Outcome (View Level)
  view_squeeze_dims v dims = do
    spec ← squeeze_dims find_position target.memory (view_spec v) dims
    done (squeeze_dims_view v dims spec)

  unfoldable pub transposed_shape : List ℕ → Outcome (List ℕ)
  transposed_shape (h ∷ w ∷ []) = done (w ∷ h ∷ [])
  transposed_shape _ = panic

  unfoldable pub transpose : View Level → Outcome (View Level)
  transpose v = do
    shape ← transposed_shape (view_spec v).shape
    r ← swap_dims (view_spec v).aux.layout (0, 1) (view_spec v).aux.contig
    spec ←
        new_canon find_position target.memory shape (view_spec v).dtype
          (record (view_spec v).aux { layout = r.0; contig = r.1 })
    done (transpose_view v spec)
