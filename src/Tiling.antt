-- ===== src/Tiling.antt =====
-- morello/src/tiling.rs: tiles of any size and step over a shape.
pub mod Steps
pub mod Boundary
mod Tests
use morello.Base.{
  ℕ, zero, suc, ◌+◌, ◌-◌, ◌*◌, ◌%◌, Bool, true, ◌&&◌, ◌||◌, Option, none, some, List, [], ◌∷◌,
  Outcome, done, panic, at, ◌>>=◌, ◌>>◌, assert, leb, ltb, ◌==◌, if◌then◌else◌, length, get_elem?,
  u32,
}

pub record Tiling : Type 0 where
  pub shape : List ℕ
  pub step_sizes : List ℕ

unfoldable pub new_sliding : List ℕ → List ℕ → Outcome Tiling
new_sliding shape steps = do
  assert (length shape == length steps)
  done (record { shape = shape; step_sizes = steps })

unfoldable pub new_simple : List ℕ → Outcome Tiling
new_simple shape = new_sliding shape shape

abbrev pub all_equal : List ℕ → List ℕ → Bool
all_equal (s ∷ shape) (t ∷ steps) = s == t && all_equal shape steps
all_equal _ _ = true

unfoldable pub is_simple : Tiling → Bool
is_simple t = all_equal t.shape t.step_sizes

module _ (div_ceil : ℕ → ℕ → ℕ) where
  unfoldable pub steps_dim : Tiling → ℕ → ℕ → Outcome ℕ
  steps_dim t dim origin_size = do
    span ← at t.shape dim
    assert (leb span origin_size)
    step ← at t.step_sizes dim
    done (div_ceil origin_size step)

  -- The product over the dimensions from `dim` on; `u8::try_from` bounds the rank.
  unfoldable pub steps_from : Tiling → ℕ → List ℕ → Outcome ℕ
  steps_from t dim [] = done 1
  steps_from t dim (s ∷ origin_shape) = do
    assert (ltb dim 256)
    n ← steps_dim t dim s
    rest ← steps_from t (suc dim) origin_shape
    done (u32 (n * rest))

  unfoldable pub steps : Tiling → List ℕ → Outcome ℕ
  steps t origin_shape = do
    assert (length t.shape == length origin_shape)
    steps_from t 0 origin_shape

-- The body of `boundary_size`, once the span and the step are read.
unfoldable pub boundary_of : ℕ → ℕ → ℕ → Outcome ℕ
boundary_of span step origin_size =
    if leb span step
    then (let remainder = origin_size % step in
        done (if remainder == 0 || leb span remainder then 0 else remainder))
    else if step + 1 == span
    then (let overlap = span - step in
        do assert (overlap == 1); done ((origin_size - 1) % step + overlap))
    else panic

unfoldable pub boundary_size : Tiling → ℕ → ℕ → Outcome ℕ
unfolding boundary_of
boundary_size t dim origin_size = do
  span ← at t.shape dim
  step ← at t.step_sizes dim
  boundary_of span step origin_size
