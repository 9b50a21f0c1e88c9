-- ===== src/Common.antt =====
-- morello/src/common.rs: element types.
use morello.Base.{ℕ, List, [], ◌∷◌, Outcome, done, at, ◌≡◌, refl}

pub data Dtype : Type 0 where
  uint8 sint8 uint16 sint16 uint32 sint32 float32 bfloat16 : Dtype

unfoldable pub size : Dtype → ℕ
size uint8 = 1
size sint8 = 1
size uint16 = 2
size sint16 = 2
size bfloat16 = 2
size uint32 = 4
size sint32 = 4
size float32 = 4

unfoldable pub higher_precision_types : Dtype → List Dtype
higher_precision_types bfloat16 = float32 ∷ []
higher_precision_types _ = []

unfoldable pub dtype_apply : Dtype → ℕ
dtype_apply uint8 = 0
dtype_apply sint8 = 1
dtype_apply uint16 = 2
dtype_apply sint16 = 3
dtype_apply uint32 = 4
dtype_apply sint32 = 5
dtype_apply float32 = 6
dtype_apply bfloat16 = 7

-- The match on the coordinate, as the list of its results; any other coordinate panics.
unfoldable pub dtype_apply_inverse : ℕ → Outcome Dtype
dtype_apply_inverse v =
    at (uint8 ∷ sint8 ∷ uint16 ∷ sint16 ∷ uint32 ∷ sint32 ∷ float32 ∷ bfloat16 ∷ []) v

-- An element type is read back from its database coordinate.
pub dtype_apply_inverse-dtype_apply : (t : Dtype) → dtype_apply_inverse (dtype_apply t) ≡ done t
unfolding dtype_apply dtype_apply_inverse
dtype_apply_inverse-dtype_apply uint8 = refl
dtype_apply_inverse-dtype_apply sint8 = refl
dtype_apply_inverse-dtype_apply uint16 = refl
dtype_apply_inverse-dtype_apply sint16 = refl
dtype_apply_inverse-dtype_apply uint32 = refl
dtype_apply_inverse-dtype_apply sint32 = refl
dtype_apply_inverse-dtype_apply float32 = refl
dtype_apply_inverse-dtype_apply bfloat16 = refl
