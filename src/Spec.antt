-- ===== src/Spec.antt =====
-- morello/src/spec.rs: the primitive Specs, their operands' shapes and their database keys.
--
-- A dimension size is a positive u32 and an axis a u8, kept as numbers. `panic!`, `unreachable!`,
-- `unimplemented!` and the failed patterns of `let ... else` panic, as do the debug assertions.
mod Tests
pub mod Keys
pub mod RoundTrip
pub mod Inference
pub mod TileOut
pub mod Logical
pub mod Replace
pub mod Canonical
pub mod Limits
pub mod Actions
use morello.Base.{
  ℕ, zero, suc, ◌+◌, ◌-◌, ◌%◌, ◌^◌, Bool, true, false, ◌&&◌, Option, none, some, List, [], ◌∷◌,
  ◌++◌, map, length, range_from, set, leb, ltb, ◌==◌, if◌then◌else◌, u32, Outcome, done, panic,
  ◌>>=◌, ◌>>◌, assert, at,
}
use morello.Common.{Dtype}
use morello.Tiling.{Tiling, new_sliding, is_simple}
use morello.Layout.Update.{same_shape}

-- A shape and an element type.
abbrev pub Operand : Type 0
Operand = List ℕ × Dtype

abbrev pub zip_operands : List (List ℕ) → List Dtype → List Operand
zip_operands (s ∷ shapes) (t ∷ ts) = (s, t) ∷ zip_operands shapes ts
zip_operands _ _ = []

-- `Zero`, `Move`, and `Matmul` and `Conv` with their `accum`.
pub data PrimitiveSpecType : Type 0 where
  zero_spec move_spec : PrimitiveSpecType
  matmul conv : Bool → PrimitiveSpecType

pub record PrimitiveBasics : Type 0 where
  pub typ : PrimitiveSpecType
  pub spec_shape : List ℕ
  pub dtypes : List Dtype

unfoldable pub input_count : PrimitiveSpecType → ℕ
input_count (matmul accum) = 2
input_count (conv accum) = 2
input_count move_spec = 1
input_count zero_spec = 0

unfoldable pub operand_count : PrimitiveSpecType → ℕ
operand_count typ = input_count typ + 1

unfoldable pub output_idx : PrimitiveSpecType → ℕ
output_idx (matmul accum) = 2
output_idx (conv accum) = 2
output_idx move_spec = 1
output_idx zero_spec = 0

unfoldable pub output_is_read : PrimitiveSpecType → Bool
output_is_read (matmul accum) = accum
output_is_read (conv accum) = accum
output_is_read _ = false

-- `DimSize::new(n).unwrap()`.
unfoldable pub dim_size : ℕ → Outcome ℕ
dim_size zero = panic
dim_size (suc n) = done (suc n)

-- The shapes of the inputs, as the match on `inputs[0]` and `inputs[1]` takes them apart.
unfoldable pub matmul_output : List ℕ → List ℕ → Outcome (List ℕ)
matmul_output (m ∷ k ∷ []) (l ∷ n ∷ []) = done (m ∷ n ∷ [])
matmul_output _ _ = panic

unfoldable pub conv_output : List ℕ → List ℕ → Outcome (List ℕ)
conv_output (b ∷ c ∷ h ∷ w ∷ []) (f ∷ d ∷ fh ∷ fw ∷ []) = do
  assert (leb fh h && leb fw w)
  oh ← dim_size (u32 (1 + h - fh))
  ow ← dim_size (u32 (1 + w - fw))
  done (b ∷ f ∷ oh ∷ ow ∷ [])
conv_output _ _ = panic

unfoldable pub infer_output_shape : PrimitiveSpecType → List (List ℕ) → Outcome (List ℕ)
infer_output_shape (matmul accum) inputs = do
  assert (length inputs == 2)
  lhs ← at inputs 0
  rhs ← at inputs 1
  matmul_output lhs rhs
infer_output_shape (conv accum) inputs = do
  assert (length inputs == 2)
  img ← at inputs 0
  filt ← at inputs 1
  conv_output img filt
infer_output_shape move_spec inputs = assert (length inputs == 1) >> at inputs 0
infer_output_shape zero_spec inputs = assert (length inputs == 0) >> at inputs 0

-- The zip over the spatial dimensions of `conv_infer_output_shape`.
unfoldable pub conv_spatial : List ℕ → List ℕ → Outcome (List ℕ)
conv_spatial (img_dim ∷ img) (filt_dim ∷ filt) = do
  assert (leb filt_dim img_dim)
  d ← dim_size (u32 (img_dim - filt_dim + 1))
  rest ← conv_spatial img filt
  done (d ∷ rest)
conv_spatial _ _ = done []

-- `shape[2..]`.
unfoldable pub spatial_of : List ℕ → Outcome (List ℕ)
spatial_of (a ∷ b ∷ dims) = done dims
spatial_of _ = panic

unfoldable pub conv_infer_output_shape : List ℕ → List ℕ → Outcome (List ℕ)
conv_infer_output_shape image_shape filters_shape = do
  batch_cnt ← at image_shape 0
  channels ← at image_shape 1
  filter_cnt ← at filters_shape 0
  filter_channels ← at filters_shape 1
  assert (channels == filter_channels)
  img ← spatial_of image_shape
  filt ← spatial_of filters_shape
  spatial ← conv_spatial img filt
  done (batch_cnt ∷ filter_cnt ∷ spatial)

unfoldable pub matmul_shapes : List ℕ → Outcome (List (List ℕ))
matmul_shapes (m ∷ k ∷ n ∷ []) = done ((m ∷ k ∷ []) ∷ (k ∷ n ∷ []) ∷ (m ∷ n ∷ []) ∷ [])
matmul_shapes _ = panic

unfoldable pub conv_shapes : List ℕ → Outcome (List (List ℕ))
conv_shapes (b ∷ f ∷ c ∷ h ∷ w ∷ fh ∷ fw ∷ []) = do
  assert (leb fh h && leb fw w)
  out ← conv_infer_output_shape (b ∷ c ∷ h ∷ w ∷ []) (f ∷ c ∷ fh ∷ fw ∷ [])
  done ((b ∷ c ∷ h ∷ w ∷ []) ∷ (f ∷ c ∷ fh ∷ fw ∷ []) ∷ out ∷ [])
conv_shapes _ = panic

unfoldable pub parameter_shapes : PrimitiveBasics → Outcome (List (List ℕ))
parameter_shapes basics = elim basics.typ [
  | matmul accum ↦ matmul_shapes basics.spec_shape
  | conv accum ↦ conv_shapes basics.spec_shape
  | move_spec ↦ done (basics.spec_shape ∷ basics.spec_shape ∷ [])
  | zero_spec ↦ done (basics.spec_shape ∷ [])
]

-- The match of `replace_io`, on the shapes of the operands.
unfoldable pub matmul_spec_shape : List (List ℕ) → Outcome (List ℕ)
matmul_spec_shape operands = do
  assert (length operands == 3)
  lhs ← at operands 0
  rhs ← at operands 1
  out ← at operands 2
  m ← at lhs 0
  out_m ← at out 0
  assert (m == out_m)
  n ← at rhs 1
  out_n ← at out 1
  assert (n == out_n)
  k ← at lhs 1
  rhs_k ← at rhs 0
  assert (k == rhs_k)
  done (m ∷ k ∷ n ∷ [])

unfoldable pub image_and_filters : List ℕ → List ℕ → Outcome (List ℕ)
image_and_filters (b ∷ c ∷ h ∷ w ∷ []) (f ∷ alt_c ∷ fh ∷ fw ∷ []) =
    assert (c == alt_c) >> done (b ∷ f ∷ c ∷ h ∷ w ∷ fh ∷ fw ∷ [])
image_and_filters _ _ = panic

unfoldable pub move_spec_shape : List (List ℕ) → Outcome (List ℕ)
move_spec_shape (src ∷ dest ∷ []) = assert (same_shape src dest) >> done src
move_spec_shape _ = panic

unfoldable pub replaced_shape : PrimitiveSpecType → List (List ℕ) → Outcome (List ℕ)
replaced_shape (matmul accum) operands = matmul_spec_shape operands
replaced_shape (conv accum) operands = do
  img ← at operands 0
  filt ← at operands 1
  image_and_filters img filt
replaced_shape move_spec operands = move_spec_shape operands
replaced_shape zero_spec operands = assert (length operands == 1) >> at operands 0

unfoldable pub replace_io : PrimitiveBasics → List (List ℕ × Dtype) → Outcome PrimitiveBasics
replace_io basics new_operands = do
  spec_shape ← replaced_shape basics.typ (map (λ o. o.0) new_operands)
  done (record { typ = basics.typ; spec_shape = spec_shape; dtypes = map (λ o. o.1) new_operands })

-- The axes of a shape that is its own: `u8::try_from` bounds its rank.
unfoldable pub own_axes : List (List ℕ) → Outcome (List (List ℕ))
own_axes [] = done []
own_axes (o ∷ shapes) = do
  assert (ltb (length o) 256)
  rest ← own_axes shapes
  done (range_from 0 (length o) ∷ rest)

unfoldable pub parameter_dim_axes : PrimitiveBasics → Outcome (List (List ℕ))
parameter_dim_axes basics = elim basics.typ [
  | matmul accum ↦ done ((0 ∷ 2 ∷ []) ∷ (2 ∷ 1 ∷ []) ∷ (0 ∷ 1 ∷ []) ∷ [])
  | conv accum ↦ done ((0 ∷ 2 ∷ 3 ∷ 4 ∷ []) ∷ (1 ∷ 2 ∷ 5 ∷ 6 ∷ []) ∷ (0 ∷ 1 ∷ 3 ∷ 4 ∷ []) ∷ [])
  | move_spec ↦ parameter_shapes basics >>= own_axes
  | zero_spec ↦ parameter_shapes basics >>= own_axes
]

-- `input_tilings_for_tile_out`: an input's tiling and, for each of its dimensions, the output
-- dimension that it is bound to.
abbrev pub Inferred : Type 0
Inferred = Tiling × List (Option ℕ)

-- The spatial sizes of an image tile, zipped with those of the filters.
unfoldable pub image_spatial : List ℕ → List ℕ → Outcome (List ℕ)
image_spatial (o ∷ dims) (f ∷ filt) = do
  d ← dim_size (u32 (o + f - 1))
  rest ← image_spatial dims filt
  done (d ∷ rest)
image_spatial _ _ = done []

unfoldable pub conv_input_tilings : List ℕ → Tiling → Outcome (List Inferred)
conv_input_tilings (b ∷ f ∷ channels ∷ h ∷ w ∷ fh ∷ fw ∷ []) smaller_output = do
  batch ← at smaller_output.shape 0
  out_spatial ← spatial_of smaller_output.shape
  spatial ← image_spatial out_spatial (fh ∷ fw ∷ [])
  step ← at smaller_output.step_sizes 1
  filters ← at smaller_output.shape 1
  image ← new_sliding (batch ∷ channels ∷ spatial) (set smaller_output.step_sizes 1 channels)
  filter ← new_sliding (filters ∷ channels ∷ fh ∷ fw ∷ []) (step ∷ channels ∷ fh ∷ fw ∷ [])
  done ((image, some 0 ∷ none ∷ none ∷ none ∷ []) ∷ (filter, none ∷ some 1 ∷ none ∷ none ∷ []) ∷ [])
conv_input_tilings _ smaller_output = panic

unfoldable pub matmul_input_tilings : List ℕ → Tiling → Outcome (List Inferred)
matmul_input_tilings spec_shape smaller_output = do
  m ← at smaller_output.shape 0
  k ← at spec_shape 1
  m_step ← at smaller_output.step_sizes 0
  n ← at smaller_output.shape 1
  n_step ← at smaller_output.step_sizes 1
  lhs ← new_sliding (m ∷ k ∷ []) (m_step ∷ k ∷ [])
  rhs ← new_sliding (k ∷ n ∷ []) (k ∷ n_step ∷ [])
  done ((lhs, some 0 ∷ none ∷ []) ∷ (rhs, none ∷ some 1 ∷ []) ∷ [])

unfoldable pub input_tilings_for_tile_out : PrimitiveBasics → Tiling → Outcome (List Inferred)
input_tilings_for_tile_out basics smaller_output = elim basics.typ [
  | matmul accum ↦
      assert (is_simple smaller_output) >> matmul_input_tilings basics.spec_shape smaller_output
  | conv accum ↦ conv_input_tilings basics.spec_shape smaller_output
  | move_spec ↦ do
    assert (is_simple smaller_output)
    assert (ltb (length smaller_output.shape) 257)
    done ((smaller_output, map some (range_from 0 (length smaller_output.shape))) ∷ [])
  | zero_spec ↦ assert (is_simple smaller_output) >> done []
]
