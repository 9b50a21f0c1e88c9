-- ===== src/Spec/Keys.antt =====
-- morello/src/spec.rs, `ShapeBimap` and `PrimitiveBasicsBimap`: the coordinates of a primitive
-- Spec in the database; and morello/src/datadeps.rs, its table.
use morello.Base.{
  ℕ, ◌+◌, ◌-◌, ◌^◌, Bool, not, List, [], ◌∷◌, set, ltb, ◌==◌, if◌then◌else◌, u32, u64, Outcome,
  done, panic, ◌>>=◌, ◌>>◌, assert, at,
}
use morello.Common.{Dtype}
use morello.Utils.Bits.{
  bit_length_u32, bit_length_inverse, is_power_of_two, prev_power_of_two, next_power_of_two,
}
use morello.Spec.{PrimitiveBasics, matmul, conv, move_spec, zero_spec, dim_size}

-- The arrays of element types have these lengths.
pub data SpecKey : Type 0 where
  matmul_key conv_key : Dtype → Dtype → Dtype → SpecKey
  move_key : Dtype → Dtype → SpecKey
  zero_key : Dtype → SpecKey

-- The coordinate of a dimension size. On a u32 that is positive, `prev_power_of_two` is
-- `prev_power_of_two_u32`.
unfoldable pub shape_coordinate : Bool → ℕ → Outcome ℕ
shape_coordinate binary_scale d =
    if binary_scale
    then assert (is_power_of_two d) >> done (bit_length_u32 (prev_power_of_two (d - 1)))
    else done (d - 1)

unfoldable pub shape_apply : Bool → List ℕ → Outcome (List ℕ)
shape_apply binary_scale [] = done []
shape_apply binary_scale (d ∷ shape) = do
  c ← shape_coordinate binary_scale d
  rest ← shape_apply binary_scale shape
  done (c ∷ rest)

-- `bit_length_inverse` and `next_power_of_two` on u64, then `u32::try_from`.
unfoldable pub coordinate_size : Bool → ℕ → Outcome ℕ
coordinate_size binary_scale c =
    let n = next_power_of_two (u64 (bit_length_inverse c + 1)) in
    if binary_scale then assert (ltb n (2 ^ 32)) >> dim_size n else dim_size (u32 (c + 1))

unfoldable pub shape_apply_inverse : Bool → List ℕ → Outcome (List ℕ)
shape_apply_inverse binary_scale [] = done []
shape_apply_inverse binary_scale (c ∷ pt) = do
  d ← coordinate_size binary_scale c
  rest ← shape_apply_inverse binary_scale pt
  done (d ∷ rest)

-- `v[i] -= v[j]` and `v[i] += v[j]`, on u32.
unfoldable pub subtract_at : List ℕ → ℕ → ℕ → Outcome (List ℕ)
subtract_at v i j = do a ← at v i; b ← at v j; done (set v i (u32 (a + 2 ^ 32 - b)))

unfoldable pub add_at : List ℕ → ℕ → ℕ → Outcome (List ℕ)
add_at v i j = do a ← at v i; b ← at v j; done (set v i (u32 (a + b)))

-- The `try_into` of a slice of element types to an array.
unfoldable pub triple_key : (Dtype → Dtype → Dtype → SpecKey) → List Dtype → Outcome SpecKey
triple_key key (a ∷ b ∷ c ∷ []) = done (key a b c)
triple_key key _ = panic

unfoldable pub pair_key : List Dtype → Outcome SpecKey
pair_key (a ∷ b ∷ []) = done (move_key a b)
pair_key _ = panic

-- `!accum as _`.
unfoldable pub accum_coordinate : Bool → ℕ
accum_coordinate accum = if not accum then 1 else 0

unfoldable pub basics_apply : Bool → PrimitiveBasics → Outcome (SpecKey × List ℕ)
basics_apply binary_scale basics = do
  shifted_shape ← shape_apply binary_scale basics.spec_shape
  elim basics.typ [
    | matmul accum ↦ do
      key ← triple_key matmul_key basics.dtypes
      done (key, accum_coordinate accum ∷ shifted_shape)
    | conv accum ↦ do
      v ← subtract_at (accum_coordinate accum ∷ shifted_shape) 4 6
      normal ← subtract_at v 5 7
      key ← triple_key conv_key basics.dtypes
      done (key, normal)
    | move_spec ↦ do key ← pair_key basics.dtypes; done (key, shifted_shape)
    | zero_spec ↦ do dtype ← at basics.dtypes 0; done (zero_key dtype, shifted_shape)
  ]

-- `v.iter().skip(1)`.
abbrev pub skip_one : List ℕ → List ℕ
skip_one [] = []
skip_one (c ∷ v) = v

unfoldable pub basics_apply_inverse : Bool → SpecKey × List ℕ → Outcome PrimitiveBasics
basics_apply_inverse binary_scale (matmul_key a b c, v) = do
  first ← at v 0
  shape ← shape_apply_inverse binary_scale (skip_one v)
  done (record { typ = matmul (first == 0); spec_shape = shape; dtypes = a ∷ b ∷ c ∷ [] })
basics_apply_inverse binary_scale (conv_key a b c, v) = do
  first ← at v 0
  tall ← add_at (skip_one v) 3 5
  wide ← add_at tall 4 6
  shape ← shape_apply_inverse binary_scale wide
  done (record { typ = conv (first == 0); spec_shape = shape; dtypes = a ∷ b ∷ c ∷ [] })
basics_apply_inverse binary_scale (move_key a b, v) = do
  shape ← shape_apply_inverse binary_scale v
  done (record { typ = move_spec; spec_shape = shape; dtypes = a ∷ b ∷ [] })
basics_apply_inverse binary_scale (zero_key a, v) = do
  shape ← shape_apply_inverse binary_scale v
  done (record { typ = zero_spec; spec_shape = shape; dtypes = a ∷ [] })
