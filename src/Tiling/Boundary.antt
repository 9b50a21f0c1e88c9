-- ===== src/Tiling/Boundary.antt =====
-- morello/src/tiling.rs: the size of the boundary tile.
use morello.Base.{
  ℕ, zero, suc, ◌+◌, ◌-◌, ◌*◌, ◌%◌, ◌≤◌, ◌<◌, ◌≡◌, ◌⊎◌, refl, ap, at, done, leb, get_elem?, some,
  inl, inr, Bool-cases, leb→le, leb-false, le→leb, lt→leb-false, ==-true, arith, mod_of_parts,
}
use morello.Tiling.{Tiling, boundary_of, boundary_size}

-- The first tile that leaves the dimension: all tiles before it are full.
pub record IsFirstPartial (span step origin_size tile : ℕ) : Type 0 where
  pub partial : origin_size < tile * step + span
  pub full_before : (i : ℕ) → i < tile → i * step + span ≤ origin_size

module _ (span step origin_size : ℕ) (pos : 0 < step) (fits : span ≤ origin_size) where
  -- It is not the first tile of all, and the one before it is full.
  previous :
      (tile : ℕ)
      → IsFirstPartial span step origin_size tile
      → (p : ℕ) × (tile ≡ suc p)
        × (p * step + span ≤ origin_size)
        × (origin_size < p * step + step + span)
  previous zero f = absurd (omega (arith, f.partial))
  previous (suc p) f = (p, refl, f.full_before p (omega arith), omega (arith, f.partial))

  remainder_at : (q n : ℕ) → q * step ≤ n → n < q * step + step → n % step ≡ n - q * step
  remainder_at q n lo hi =
      let e : step * q + (n - q * step) ≡ n = omega arith in
      rw e at (mod_of_parts step q (n - q * step) (omega arith))

  boundary_of-wide :
      (tile : ℕ)
      → span ≤ step
      → IsFirstPartial span step origin_size tile
      → boundary_of span step origin_size ≡ done (origin_size - tile * step)
  unfolding boundary_of
  boundary_of-wide tile wide f =
      let (p, e, lo, hi) = previous tile f in
      let expand : suc p * step ≡ p * step + step = omega arith in
      rw (le→leb span step wide, e, expand)
        (elim (Bool-cases (leb (p * step + step) origin_size)) [
          | inl inside ↦
              let rem =
                remainder_at (suc p) origin_size (omega (arith, leb→le _ _ inside)) (omega arith) in
              rw (rem, expand) (ground (arith, leb→le _ _ inside))
          | inr outside ↦
              let rem = remainder_at p origin_size (omega arith) (leb-false _ _ outside) in
              rw rem (ground (arith, leb-false _ _ outside))
        ])

  boundary_of-overlapping :
      (tile : ℕ)
      → step + 1 ≡ span
      → IsFirstPartial span step origin_size tile
      → boundary_of span step origin_size ≡ done (origin_size - tile * step)
  unfolding boundary_of
  boundary_of-overlapping tile overlap f =
      let (p, e, lo, hi) = previous tile f in
      let expand : suc p * step ≡ p * step + step = omega arith in
      let rem = remainder_at (suc p) (origin_size - 1) (omega arith) (omega arith) in
      let one : span - step ≡ 1 = omega arith in
      rw
        (lt→leb-false span step (omega arith), ==-true (step + 1) span overlap, one, rem, e, expand)
        (ap done (omega arith))

  -- The search for the first partial tile, from tile `i` on, all before it being full.
  IsFirstPartial-from :
      (fuel i : ℕ)
      → origin_size < i + fuel
      → ((j : ℕ) → j < i → j * step + span ≤ origin_size)
      → (tile : ℕ) × IsFirstPartial span step origin_size tile
  IsFirstPartial-from zero i h full = (i, record { partial = grind arith; full_before = full })
  IsFirstPartial-from (suc fuel) i h full = elim (Bool-cases (leb (i * step + span) origin_size)) [
    | inl fits_here ↦ IsFirstPartial-from fuel (suc i) (omega arith) (λ j lt.
        elim (Bool-cases (leb i j)) [
          | inl ge ↦
              let same : j ≡ i = omega (arith, leb→le _ _ ge) in rw same (leb→le _ _ fits_here)
          | inr below ↦ full j (leb-false _ _ below)
        ])
    | inr leaves ↦ (i, record { partial = leb-false _ _ leaves; full_before = full })
  ]

  IsFirstPartial-exists : (tile : ℕ) × IsFirstPartial span step origin_size tile
  IsFirstPartial-exists =
      IsFirstPartial-from (suc origin_size) 0 (omega arith) (λ j lt. absurd (omega arith))

-- Over a dimension at least as large as the tile, where consecutive tiles do not overlap or overlap
-- in one point, some tile is the first that is not full, and `boundary_size` is the number of its
-- leading points that lie inside the dimension.
pub boundary_size-IsFirstPartial :
    (t : Tiling) (dim origin_size : ℕ) {span step : ℕ}
    → get_elem? t.shape dim ≡ some span
    → get_elem? t.step_sizes dim ≡ some step
    → 0 < step
    → span ≤ origin_size
    → (span ≤ step) ⊎ (step + 1 ≡ span)
    → (tile : ℕ) × IsFirstPartial span step origin_size tile
      × (boundary_size t dim origin_size ≡ done (origin_size - tile * step))
unfolding boundary_size
boundary_size-IsFirstPartial t dim origin_size {span} {step} hs ht pos fits kind =
    let (tile, f) = IsFirstPartial-exists span step origin_size pos fits in
    (
      tile,
      f,
      rw (hs, at)
          (rw (ht, at)
            (elim kind [
              | inl wide ↦ boundary_of-wide span step origin_size pos fits tile wide f
              | inr overlap ↦ boundary_of-overlapping span step origin_size pos fits tile overlap f
            ])),
    )
