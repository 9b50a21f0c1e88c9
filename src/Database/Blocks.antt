-- ===== src/Database/Blocks.antt =====
-- morello/src/db.rs: the blocks of the database, and what is put into them and read from them.
--
-- Every array has one dimension more than the block, for the `k` actions of an entry, but `filled`,
-- which holds 0 for an empty entry and otherwise one more than its number of actions. `Database`
-- stands for the superblocks in memory or on disk, by the block's key.
use morello.Base.{
  ℕ, zero, suc, ◌+◌, ◌-◌, max, Bool, ◌&&◌, Option, none, some, List, [], ◌∷◌, ◌++◌, map, length,
  replicate, ltb, leb, ◌==◌, if◌then◌else◌, u8, Outcome, done, ◌>>=◌, ◌>>◌, assert,
}
use morello.Cost.{Cost}
use morello.Memory.{MemVec, MemoryLimits, standard, level_count, zero_vec, new}
use morello.Layout.Update.{same_shape, take}
use morello.Utils.Bits.{bit_length_inverse}
use morello.Utils.Ranges.{Range}
use morello.NdArray.{RleVec, NdArray, new_with_value, get, fill_region, fill_broadcast_1d}
use morello.Database.{
  BlockRange, block_size_dim, iter_blocks_in_single_dim_range, block_shape, blockify_point,
}

-- `ActionCostVec`: an action's index with its cost.
abbrev pub ActionCostVec : Type 0
ActionCostVec = List (ℕ × Cost)

-- `GetPreference`; a miss carries no preferred action yet.
pub data GetPreference : Type 0 where
  hit : ActionCostVec → GetPreference
  miss : GetPreference

module _ (R : RleVec) where
  pub record WholeBlock : Type 0 where
    pub filled : NdArray R ℕ
    pub main_costs : NdArray R ℕ
    pub peaks : NdArray R MemVec
    pub depths_actions : NdArray R (ℕ × ℕ)

  unfoldable pub empty : ℕ → List ℕ → Outcome WholeBlock
  empty k shape = do
    let shape_with_k = shape ++ k ∷ []
    filled ← new_with_value R shape 0
    main_costs ← new_with_value R shape_with_k 0
    peaks ← new_with_value R shape_with_k zero_vec
    depths_actions ← new_with_value R shape_with_k (0, 0)
    done (record {
      filled = filled;
      main_costs = main_costs;
      peaks = peaks;
      depths_actions = depths_actions;
    })

  -- `fill_region`, which only calls `fill_region_without_updating_match`.
  unfoldable pub fill_block : WholeBlock → List Range → ActionCostVec → Outcome WholeBlock
  fill_block b dim_ranges value = do
    assert (length dim_ranges == length b.filled.shape)
    assert (ltb (length value) 256)
    filled ← fill_region R b.filled dim_ranges (u8 (length value + 1))
    main_costs ←
        fill_broadcast_1d R b.main_costs dim_ranges (map (λ (e : ℕ × Cost). e.1.main) value)
          (some filled)
    peaks ←
        fill_broadcast_1d R b.peaks dim_ranges (map (λ (e : ℕ × Cost). e.1.peaks) value)
          (some filled)
    depths_actions ←
        fill_broadcast_1d R b.depths_actions dim_ranges
          (map (λ (e : ℕ × Cost). (e.1.depth, e.0)) value) (some filled)
    done (record {
      filled = filled;
      main_costs = main_costs;
      peaks = peaks;
      depths_actions = depths_actions;
    })

  unfoldable pub partially_filled : ℕ → List ℕ → List Range → ActionCostVec → Outcome WholeBlock
  partially_filled k shape dim_ranges value = do b ← empty k shape; fill_block b dim_ranges value

  -- The entries from `i` on, of which `n` are left.
  unfoldable pub entries_from : WholeBlock → List ℕ → ℕ → ℕ → Outcome ActionCostVec
  entries_from b pt i zero = done []
  entries_from b pt i (suc n) = do
    let pt_with_k = pt ++ i ∷ []
    da ← get R b.depths_actions pt_with_k
    main ← get R b.main_costs pt_with_k
    peaks ← get R b.peaks pt_with_k
    rest ← entries_from b pt (suc i) n
    done ((da.1, record { main = main; peaks = peaks; depth = da.0 }) ∷ rest)

  unfoldable pub get_block : WholeBlock → List ℕ → Outcome (Option ActionCostVec)
  get_block b pt = do
    f ← get R b.filled pt
    if f == 0 then done none else (entries_from b pt 0 (f - 1) >>= λ entries. done (some entries))

  unfoldable pub block_get_with_preference : WholeBlock → List ℕ → Outcome GetPreference
  block_get_with_preference b inner_pt = do
    r ← get_block b inner_pt
    elim r [ none ↦ done miss | some v ↦ done (hit v) ]

-- The largest peak of each level.
unfoldable pub max_peaks : List ℕ → List ℕ → List ℕ
max_peaks (p ∷ per_level) (q ∷ peaks) = max p q ∷ max_peaks per_level peaks
max_peaks per_level _ = per_level

unfoldable pub per_level_peaks : List ℕ → ActionCostVec → List ℕ
per_level_peaks acc [] = acc
per_level_peaks acc ((_, cost) ∷ impls) =
    per_level_peaks (max_peaks acc (map bit_length_inverse cost.peaks)) impls

-- `put_range_to_fill`, over the map of Specs to table keys and points.
module _ {Spec Key : Type 0} (with_limits : Spec → MemoryLimits → Spec)
    (bimap : Spec → Key × List ℕ) (same_key : Key → Key → Bool) where
  unfoldable pub put_range_to_fill : Spec → ActionCostVec → Outcome (Key × (List ℕ × List ℕ))
  put_range_to_fill spec impls = do
    let peaks = per_level_peaks (replicate level_count 0) impls
    let upper = bimap spec
    let lower = bimap (with_limits spec (standard (new peaks)))
    assert (same_key upper.0 lower.0)
    assert (leb level_count (length upper.1) && leb level_count (length lower.1))
    assert (
        same_shape (take (length upper.1 - level_count) upper.1)
          (take (length lower.1 - level_count) lower.1))
    done (upper.0, (lower.1, upper.1))

-- The blocks of each dimension between the bottom and the top point.
unfoldable pub dim_blocks : ℕ → ℕ → List ℕ → List ℕ → List (List BlockRange)
dim_blocks rank dim (b ∷ bottom) (t ∷ top) =
    iter_blocks_in_single_dim_range b t (block_size_dim dim rank)
    ∷ dim_blocks rank (suc dim) bottom top
dim_blocks rank dim _ _ = []

unfoldable pub prefixed : {A : Type 0} → A → List (List A) → List (List A)
prefixed x [] = []
prefixed x (ys ∷ yss) = (x ∷ ys) ∷ prefixed x yss

unfoldable pub paired : {A : Type 0} → List A → List (List A) → List (List A)
paired [] yss = []
paired (x ∷ xs) yss = prefixed x yss ++ paired xs yss

-- itertools' `multi_cartesian_product`, the last list fastest.
unfoldable pub cartesian : {A : Type 0} → List (List A) → List (List A)
cartesian [] = [] ∷ []
cartesian (xs ∷ xss) = paired xs (cartesian xss)

abbrev pub inner_range : BlockRange → Range
inner_range r = record { start = r.start; end = r.end }

module _ (R : RleVec) (k : ℕ) (db_shape : List (Option ℕ)) where
  -- A table: the blocks by their points.
  abbrev pub Table : Type 0
  Table = List ℕ → Option (WholeBlock R)

  abbrev pub updated : Table → List ℕ → WholeBlock R → Table
  updated table pt b q = if same_shape pt q then some b else table q

  -- One block of a put: mutated in place, or created.
  unfoldable pub put_block : List BlockRange → ActionCostVec → Table → Outcome Table
  put_block joined_row decisions table = do
    let block_pt = map (λ (r : BlockRange). r.block) joined_row
    let dim_ranges = map inner_range joined_row
    elim (table block_pt) [
      | some live ↦ (do b ← fill_block R live dim_ranges decisions; done (updated table block_pt b))
      | none ↦ (do
        shape ← block_shape block_pt db_shape block_size_dim
        b ← partially_filled R k shape dim_ranges decisions
        done (updated table block_pt b))
    ]

  unfoldable pub put_blocks : List (List BlockRange) → ActionCostVec → Table → Outcome Table
  put_blocks [] decisions table = done table
  put_blocks (row ∷ rows) decisions table = do
    t ← put_block row decisions table
    put_blocks rows decisions t

  -- The loop of `put` over the blocks between two points.
  unfoldable pub put_range : List ℕ → List ℕ → ActionCostVec → Table → Outcome Table
  put_range bottom top decisions table =
      put_blocks (cartesian (dim_blocks (length bottom) 0 bottom top)) decisions table

  -- `get_with_preference`, at the point of a canonical Spec.
  unfoldable pub get_at : (ℕ → ℕ → ℕ × ℕ) → List ℕ → Table → Outcome GetPreference
  get_at div_rem global_pt table = do
    let (block_pt, inner_pt) = blockify_point div_rem global_pt
    elim (table block_pt) [ none ↦ done miss | some b ↦ block_get_with_preference R b inner_pt ]
