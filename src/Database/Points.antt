-- ===== src/Database/Points.antt =====
-- morello/src/db.rs: `blockify_point` and `deblockify_points`.
use native.Mathlib.Nat.{div-add-mod}
use morello.Base.{
  ℕ, suc, ◌+◌, ◌*◌, ◌/◌, ◌%◌, ◌^◌, ◌≤◌, ◌<◌, ◌≡◌, refl, ap, ap₂, List, [], ◌∷◌, length, All, done,
  ==-true, u32, u32_of_lt, IsDivRem, div_of_parts, mod_of_parts, arith,
}
use morello.Database.{
  block_size_dim, db_key_scale, blockify_from, blockify_point, deblockify_from, deblockify_points,
}

-- No block is empty, and none is longer than 31, so that an inner coordinate fits a u8.
pub block_size_dim_bounds :
    (dim dim_count : ℕ) → (1 ≤ block_size_dim dim dim_count) × (block_size_dim dim dim_count ≤ 31)
unfolding block_size_dim
block_size_dim_bounds dim dim_count = ground arith

module _ (div_rem : ℕ → ℕ → ℕ × ℕ) (contract : IsDivRem div_rem) where
  pub db_key_scale_lem :
      (i d rank : ℕ)
      → db_key_scale div_rem i d rank ≡ (d / block_size_dim i rank, d % block_size_dim i rank)
  unfolding db_key_scale
  db_key_scale_lem i d rank = contract d (block_size_dim i rank) (block_size_dim_bounds i rank).0

  pub length-blockify_from :
      (rank i : ℕ) (pt : List ℕ)
      → (length (blockify_from div_rem rank i pt).0 ≡ length pt)
        × (length (blockify_from div_rem rank i pt).1 ≡ length pt)
  unfolding blockify_from
  length-blockify_from rank i [] = (refl, refl)
  length-blockify_from rank i (d ∷ pt) =
      let ih = length-blockify_from rank (suc i) pt in (ap suc ih.0, ap suc ih.1)

  rebuilt :
      (i rank d : ℕ)
      → d < 2 ^ 32
      → u32 (u32 (block_size_dim i rank * (d / block_size_dim i rank)) + d % block_size_dim i rank)
        ≡ d
  rebuilt i rank d h =
      let parts = div-add-mod d (block_size_dim i rank) in
      rw
        (
          u32_of_lt (block_size_dim i rank * (d / block_size_dim i rank)) (omega (arith, parts)),
          parts,
        )
        (u32_of_lt d h)

  deblockify-blockify_from :
      (rank i : ℕ) (pt : List ℕ)
      → All (λ d. d < 2 ^ 32) pt
      → deblockify_from rank i
          (blockify_from div_rem rank i pt).0
          (blockify_from div_rem rank i pt).1
        ≡ pt
  unfolding deblockify_from blockify_from
  deblockify-blockify_from rank i [] a = refl
  deblockify-blockify_from rank i (d ∷ pt) a =
      rw (db_key_scale_lem i d rank)
        (ap₂ ◌∷◌ (rebuilt i rank d a.0) (deblockify-blockify_from rank (suc i) pt a.1))

  -- Every point of u32 coordinates comes back from its block and its place within the block.
  pub deblockify_points-blockify_point :
      (pt : List ℕ)
      → All (λ d. d < 2 ^ 32) pt
      → deblockify_points (blockify_point div_rem pt).0 (blockify_point div_rem pt).1 ≡ done pt
  unfolding deblockify_points blockify_point
  deblockify_points-blockify_point pt a =
      let (l, k) = length-blockify_from (length pt) 0 pt in
      rw (l, k, ==-true (length pt) (length pt) refl)
        (ap done (deblockify-blockify_from (length pt) 0 pt a))

  -- Block coordinates, and places that lie within the blocks, from dimension `i` on.
  abbrev pub AreWithin : ℕ → ℕ → List ℕ → List ℕ → Type 0
  AreWithin rank i [] [] = Unit
  AreWithin rank i (a ∷ as') (b ∷ bs) =
      (b < block_size_dim i rank)
      × (block_size_dim i rank * a + b < 2 ^ 32)
      × AreWithin rank (suc i) as' bs
  AreWithin rank i _ _ = ⊥

  blockify-deblockify_from :
      (rank i : ℕ) (a b : List ℕ)
      → AreWithin rank i a b
      → blockify_from div_rem rank i (deblockify_from rank i a b) ≡ (a, b)
  unfolding deblockify_from blockify_from
  blockify-deblockify_from rank i [] [] w = refl
  blockify-deblockify_from rank i [] (b ∷ bs) w = absurd w
  blockify-deblockify_from rank i (a ∷ as') [] w = absurd w
  blockify-deblockify_from rank i (a ∷ as') (b ∷ bs) w =
      let ih = blockify-deblockify_from rank (suc i) as' bs w.2 in
      rw (
        u32_of_lt (block_size_dim i rank * a) (omega (arith, w.1)),
        u32_of_lt (block_size_dim i rank * a + b) w.1,
        db_key_scale_lem i (block_size_dim i rank * a + b) rank,
        div_of_parts (block_size_dim i rank) a b w.0,
        mod_of_parts (block_size_dim i rank) a b w.0,
        ih,
      )

  length-deblockify_from :
      (rank i : ℕ) (a b : List ℕ)
      → AreWithin rank i a b
      → (length (deblockify_from rank i a b) ≡ length a) × (length a ≡ length b)
  unfolding deblockify_from
  length-deblockify_from rank i [] [] w = (refl, refl)
  length-deblockify_from rank i [] (b ∷ bs) w = absurd w
  length-deblockify_from rank i (a ∷ as') [] w = absurd w
  length-deblockify_from rank i (a ∷ as') (b ∷ bs) w =
      let ih = length-deblockify_from rank (suc i) as' bs w.2 in (ap suc ih.0, ap suc ih.1)

  -- A block and a place within it come back from the point that they stand for.
  pub blockify_point-deblockify_points :
      (a b : List ℕ)
      → AreWithin (length a) 0 a b
      → (pt : List ℕ) × (deblockify_points a b ≡ done pt) × (blockify_point div_rem pt ≡ (a, b))
  unfolding deblockify_points blockify_point
  blockify_point-deblockify_points a b w =
      let (l, e) = length-deblockify_from (length a) 0 a b w in
      (
        deblockify_from (length a) 0 a b,
        rw (==-true (length a) (length b) e) refl,
        rw l (blockify-deblockify_from (length a) 0 a b w),
      )
