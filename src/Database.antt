-- ===== src/Database.antt =====
-- morello/src/db.rs: how a point of the database is cut into blocks. The database's files, caches,
-- threads and the Spec to point map are not part of this model.
--
-- Coordinates are u32; `usize` is 64 bits wide. Arithmetic wraps, and `debug_assert!`s are
-- preconditions, which the theorems state. `div_rem` of the crate `divrem` is a parameter.
pub mod Points
pub mod Ranges
pub mod Shapes
pub mod Blocks
mod Tests
use morello.Base.{
  ℕ, zero, suc, ◌+◌, ◌-◌, ◌*◌, ◌/◌, ◌%◌, ◌^◌, min, Bool, true, not, ◌&&◌, ◌||◌, Option, none, some,
  List, [], ◌∷◌, ◌++◌, map, length, leb, ltb, ◌==◌, if◌then◌else◌, u32, u64, Outcome, done, panic,
  ◌>>=◌, ◌>>◌, assert, at,
}

abbrev pub superblock_factor : ℕ
superblock_factor = 2

unfoldable pub superblockify_pt : List ℕ → List ℕ
superblockify_pt block_pt = map (λ i. i / superblock_factor) block_pt

abbrev pub usize_sub : ℕ → ℕ → ℕ
usize_sub a b = u64 (a + 2 ^ 64 - b)

unfoldable pub block_size_dim : ℕ → ℕ → ℕ
block_size_dim dim dim_count =
    if dim == 0 || dim == 1 || dim == usize_sub dim_count 5
    then 1
    else if dim == usize_sub dim_count 1
    then 31
    else if ltb dim (usize_sub dim_count 5)
    then 3
    else 4

module _ (div_rem : ℕ → ℕ → ℕ × ℕ) where
  -- The remainder fits a u8: no block is longer than 31.
  unfoldable pub db_key_scale : ℕ → ℕ → ℕ → ℕ × ℕ
  db_key_scale dim value dim_count =
      let (quotient, remainder) = div_rem value (block_size_dim dim dim_count) in
      (quotient, remainder)

  -- The loop of `blockify_point` from dimension `i` on: the point's outer part and its inner part.
  unfoldable pub blockify_from : ℕ → ℕ → List ℕ → List ℕ × List ℕ
  blockify_from rank i [] = ([], [])
  blockify_from rank i (d ∷ pt) =
      let (outer, inner) = db_key_scale i d rank in
      let (outers, inners) = blockify_from rank (suc i) pt in (outer ∷ outers, inner ∷ inners)

  unfoldable pub blockify_point : List ℕ → List ℕ × List ℕ
  blockify_point pt = blockify_from (length pt) 0 pt

-- The loop of `deblockify_points` from dimension `i` on; the two have the same length.
unfoldable pub deblockify_from : ℕ → ℕ → List ℕ → List ℕ → List ℕ
deblockify_from rank i (a ∷ as') (b ∷ bs) =
    u32 (u32 (block_size_dim i rank * a) + b) ∷ deblockify_from rank (suc i) as' bs
deblockify_from rank i _ _ = []

unfoldable pub deblockify_points : List ℕ → List ℕ → Outcome (List ℕ)
deblockify_points a b = do assert (length a == length b); done (deblockify_from (length a) 0 a b)

-- A block and the half-open range of within-block indices.
pub record BlockRange : Type 0 where
  pub block : ℕ
  pub start : ℕ
  pub end : ℕ

-- The indices `lo .. hi`.
unfoldable pub full_blocks : ℕ → ℕ → ℕ → List BlockRange
full_blocks size lo zero = []
full_blocks size lo (suc n) =
    record { block = lo; start = 0; end = size } ∷ full_blocks size (suc lo) n

unfoldable pub iter_blocks_in_single_dim_range : ℕ → ℕ → ℕ → List BlockRange
iter_blocks_in_single_dim_range global_bottom global_top_inclusive block_dim_size =
    let global_top = u32 (global_top_inclusive + 1) in
    let block_bottom = global_bottom / block_dim_size in
    let block_top = u32 (global_top + block_dim_size - 1) / block_dim_size in
    let last_block_is_complete = global_top % block_dim_size == 0 in
    let one_block_only = block_bottom == block_top - 1 in
    let s = global_bottom % block_dim_size in
    let e = global_top % block_dim_size in
    let prefix : BlockRange =
      if one_block_only
      then record {
        block = block_bottom;
        start = s;
        end = min (s + (global_top - global_bottom)) block_dim_size;
      }
      else record { block = block_bottom; start = s; end = block_dim_size } in
    let suffix : List BlockRange =
      if one_block_only || e == 0
      then []
      else record { block = block_top - 1; start = 0; end = e } ∷ [] in
    let block_top_full = if last_block_is_complete then block_top else block_top - 1 in
    prefix
    ∷ (full_blocks block_dim_size (block_bottom + 1) (block_top_full - (block_bottom + 1))
        ++ suffix)

-- `block_shape` at dimension `i`: the part of a full block that lies inside the database.
unfoldable pub block_shape_from : (ℕ → ℕ → ℕ) → ℕ → ℕ → List ℕ → List (Option ℕ) → Outcome (List ℕ)
block_shape_from size_fn rank i (b ∷ block_pt) (m ∷ db_shape) = do
  rest ← block_shape_from size_fn rank (suc i) block_pt db_shape
  done (
      elim m [
        | none ↦ size_fn i rank
        | some db_max ↦ min (u32 (db_max + 2 ^ 32 - u32 (b * size_fn i rank))) (size_fn i rank)
      ]
      ∷ rest)
block_shape_from size_fn rank i _ _ = done []

unfoldable pub block_shape : List ℕ → List (Option ℕ) → (ℕ → ℕ → ℕ) → Outcome (List ℕ)
block_shape block_pt db_shape size_fn = do
  assert (length block_pt == length db_shape)
  block_shape_from size_fn (length db_shape) 0 block_pt db_shape
