-- ===== src/Database/Tests.antt =====
-- Runs of the functions of morello/src/db.rs, and the theorems at concrete inputs.
use morello.Base.{
  ℕ, ◌+◌, ◌-◌, ◌/◌, ◌%◌, ◌≡◌, refl, Option, none, some, List, [], ◌∷◌, range_from, done, IsDivRem,
  arith,
}
use morello.Database.{
  block_size_dim, blockify_point, blockify_from, db_key_scale, deblockify_points, full_blocks,
  iter_blocks_in_single_dim_range, block_shape,
}
use morello.Database.Points.{
  deblockify_points-blockify_point, AreWithin, blockify_point-deblockify_points,
}
use morello.Database.Ranges.{covered, iter_blocks_in_single_dim_range-covered}
use morello.Database.Shapes.{IsBelow, blockify_point-IsBelow}

abbrev native_div_rem : ℕ → ℕ → ℕ × ℕ
native_div_rem a b = (a / b, a % b)

native-IsDivRem : IsDivRem native_div_rem
native-IsDivRem a b h = refl

-- Seven dimensions: two shape dimensions, then `dim_count - 5` and the four memory levels.
abbrev point : List ℕ
point = 9 ∷ 8 ∷ 1 ∷ 5 ∷ 11 ∷ 16 ∷ 30 ∷ []

blockify_run :
    blockify_point native_div_rem point
    ≡ (9 ∷ 8 ∷ 1 ∷ 1 ∷ 2 ∷ 4 ∷ 0 ∷ [], 0 ∷ 0 ∷ 0 ∷ 1 ∷ 3 ∷ 0 ∷ 30 ∷ [])
unfolding blockify_point blockify_from db_key_scale block_size_dim
blockify_run = refl

-- The runs of the source's documentation.
iter_blocks_run :
    iter_blocks_in_single_dim_range 1 7 4
    ≡ record { block = 0; start = 1; end = 4 } ∷ record { block = 1; start = 0; end = 4 } ∷ []
unfolding iter_blocks_in_single_dim_range full_blocks
iter_blocks_run = refl

iter_blocks_single :
    iter_blocks_in_single_dim_range 4 4 4 ≡ record { block = 1; start = 0; end = 1 } ∷ []
unfolding iter_blocks_in_single_dim_range full_blocks
iter_blocks_single = refl

deblockify_points-blockify_point_example :
    deblockify_points
      (blockify_point native_div_rem point).0
      (blockify_point native_div_rem point).1
    ≡ done point
deblockify_points-blockify_point_example =
    deblockify_points-blockify_point native_div_rem native-IsDivRem point (omega arith)

five_within :
    AreWithin native_div_rem native-IsDivRem 5 0 (3 ∷ 2 ∷ 7 ∷ 6 ∷ 1 ∷ []) (0 ∷ 0 ∷ 1 ∷ 3 ∷ 30 ∷ [])
unfolding block_size_dim
five_within = omega arith

blockify_point-deblockify_points_example :
    (pt : List ℕ) × (deblockify_points (3 ∷ 2 ∷ 7 ∷ 6 ∷ 1 ∷ []) (0 ∷ 0 ∷ 1 ∷ 3 ∷ 30 ∷ []) ≡ done pt)
    × (blockify_point native_div_rem pt ≡ (3 ∷ 2 ∷ 7 ∷ 6 ∷ 1 ∷ [], 0 ∷ 0 ∷ 1 ∷ 3 ∷ 30 ∷ []))
blockify_point-deblockify_points_example =
    blockify_point-deblockify_points native_div_rem native-IsDivRem (3 ∷ 2 ∷ 7 ∷ 6 ∷ 1 ∷ [])
      (0 ∷ 0 ∷ 1 ∷ 3 ∷ 30 ∷ []) five_within

iter_blocks_in_single_dim_range-covered_example :
    covered 4 (iter_blocks_in_single_dim_range 1 9 4) ≡ range_from 1 (9 + 1 - 1)
iter_blocks_in_single_dim_range-covered_example =
    iter_blocks_in_single_dim_range-covered 1 9 4 (omega arith) (omega arith) (omega arith)

-- Memory coordinates up to 7, 11, 16 and 31; the shape dimensions have no bound.
abbrev block_bounds : List (Option ℕ)
block_bounds = none ∷ none ∷ none ∷ some 8 ∷ some 12 ∷ some 17 ∷ some 32 ∷ []

blockify_point-IsBelow_example :
    (shape : List ℕ) × (block_shape
        (blockify_point native_div_rem point).0
        block_bounds
        block_size_dim
      ≡ done shape)
    × IsBelow (blockify_point native_div_rem point).1 shape
blockify_point-IsBelow_example =
    blockify_point-IsBelow native_div_rem native-IsDivRem point block_bounds (omega arith)
