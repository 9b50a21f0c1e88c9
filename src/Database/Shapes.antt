-- ===== src/Database/Shapes.antt =====
-- morello/src/db.rs: `block_shape`, against the points that `blockify_point` makes.
use native.Mathlib.Nat.{div-add-mod, mod-lt}
use morello.Base.{
  ℕ, suc, ◌+◌, ◌-◌, ◌*◌, ◌/◌, ◌%◌, ◌^◌, ◌≤◌, ◌<◌, ◌≡◌, refl, ap, min, Option, none, some, List, [],
  ◌∷◌, length, done, ==-true, u32, u32_of_lt, IsDivRem, arith,
}
use morello.Database.{block_size_dim, blockify_from, blockify_point, block_shape_from, block_shape}
use morello.Database.Points.{block_size_dim_bounds, db_key_scale_lem, length-blockify_from}

-- The point lies inside the database; a dimension with no bound holds every u32.
abbrev pub IsInside : List ℕ → List (Option ℕ) → Type 0
IsInside [] [] = Unit
IsInside (d ∷ pt) (none ∷ db_shape) = (d < 2 ^ 32) × IsInside pt db_shape
IsInside (d ∷ pt) (some m ∷ db_shape) = (d < m) × (m < 2 ^ 32) × IsInside pt db_shape
IsInside _ _ = ⊥

-- Each coordinate is below the extent of its dimension.
abbrev pub IsBelow : List ℕ → List ℕ → Type 0
IsBelow [] [] = Unit
IsBelow (d ∷ pt) (s ∷ shape) = (d < s) × IsBelow pt shape
IsBelow _ _ = ⊥

IsInside-length :
    (pt : List ℕ) (db_shape : List (Option ℕ)) → IsInside pt db_shape → length pt ≡ length db_shape
IsInside-length [] [] h = refl
IsInside-length [] (m ∷ db_shape) h = absurd h
IsInside-length (d ∷ pt) [] h = absurd h
IsInside-length (d ∷ pt) (none ∷ db_shape) h = ap suc (IsInside-length pt db_shape h.1)
IsInside-length (d ∷ pt) (some m ∷ db_shape) h = ap suc (IsInside-length pt db_shape h.2)

truncated :
    (d m s : ℕ) → 0 < s → d < m → m < 2 ^ 32 → d % s < min (u32 (m + 2 ^ 32 - u32 (d / s * s))) s
truncated d m s pos lt fits =
    let parts = div-add-mod d s in
    let start : d / s * s ≤ d = omega (arith, parts) in
    rw (u32_of_lt (d / s * s) (omega arith)) (omega (arith, parts, mod-lt d pos))

module _ (div_rem : ℕ → ℕ → ℕ × ℕ) (contract : IsDivRem div_rem) where
  inner-IsBelow_from :
      (rank i : ℕ) (pt : List ℕ) (db_shape : List (Option ℕ))
      → IsInside pt db_shape
      → (shape : List ℕ) × (block_shape_from block_size_dim rank i
            (blockify_from div_rem rank i pt).0
            db_shape
          ≡ done shape)
        × IsBelow (blockify_from div_rem rank i pt).1 shape
  unfolding blockify_from block_shape_from
  inner-IsBelow_from rank i [] [] h = ([], refl, tt)
  inner-IsBelow_from rank i [] (m ∷ db_shape) h = absurd h
  inner-IsBelow_from rank i (d ∷ pt) [] h = absurd h
  inner-IsBelow_from rank i (d ∷ pt) (none ∷ db_shape) h =
      let (shape, e, below) = inner-IsBelow_from rank (suc i) pt db_shape h.1 in
      (
        block_size_dim i rank ∷ shape,
        rw e refl,
        rw (db_key_scale_lem div_rem contract i d rank)
            (mod-lt d (block_size_dim_bounds i rank).0, below),
      )
  inner-IsBelow_from rank i (d ∷ pt) (some m ∷ db_shape) h =
      let (shape, e, below) = inner-IsBelow_from rank (suc i) pt db_shape h.2 in
      let s = block_size_dim i rank in
      (
        min (u32 (m + 2 ^ 32 - u32 (d / s * s))) s ∷ shape,
        rw (e, db_key_scale_lem div_rem contract i d rank) refl,
        rw (db_key_scale_lem div_rem contract i d rank)
            (truncated d m s (block_size_dim_bounds i rank).0 h.0 h.1, below),
      )

  -- The place of a point of the database within its block lies inside the shape that `block_shape`
  -- gives to that block, also where the block is cut off at the database's edge.
  pub blockify_point-IsBelow :
      (pt : List ℕ) (db_shape : List (Option ℕ))
      → IsInside pt db_shape
      → (shape : List ℕ) × (block_shape (blockify_point div_rem pt).0 db_shape block_size_dim
          ≡ done shape)
        × IsBelow (blockify_point div_rem pt).1 shape
  unfolding blockify_point block_shape
  blockify_point-IsBelow pt db_shape h =
      let same = IsInside-length pt db_shape h in
      let (shape, e, below) = inner-IsBelow_from (length pt) 0 pt db_shape h in
      (
        shape,
        rw
            (
              (length-blockify_from div_rem contract (length pt) 0 pt).0,
              ← same,
              ==-true (length pt) (length pt) refl,
            )
            e,
        below,
      )
