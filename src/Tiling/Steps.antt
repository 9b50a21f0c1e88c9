-- ===== src/Tiling/Steps.antt =====
-- morello/src/tiling.rs: how many tiles there are.
use morello.Base.{
  ℕ, ◌*◌, ◌≤◌, ◌<◌, ◌≡◌, ◌↔◌, refl, true, ==-true, List, [], ◌∷◌, at, done, leb, le→leb, length,
  get_elem?, some, IsDivCeil, inl, inr, Bool-cases, leb→le, leb-false, arith,
}
use morello.Tiling.{Tiling, new_sliding, new_simple, is_simple, all_equal, steps_dim}

all_equal_self : (xs : List ℕ) → all_equal xs xs ≡ true
all_equal_self [] = refl
all_equal_self (x ∷ xs) = ground (arith, all_equal_self xs)

-- A tiling made by `new_simple` is simple, and making it never panics.
pub new_simple-is_simple :
    (shape : List ℕ) → (t : Tiling) × (new_simple shape ≡ done t) × (is_simple t ≡ true)
unfolding new_simple new_sliding is_simple
new_simple-is_simple shape = (
  record { shape = shape; step_sizes = shape },
  rw (==-true (length shape) (length shape) refl) refl,
  all_equal_self shape,
)

module _ (div_ceil : ℕ → ℕ → ℕ) (contract : IsDivCeil div_ceil) where
  -- Over a dimension at least as large as the tile, `steps_dim` counts the tiles whose first point
  -- lies inside: tile `i` starts inside exactly when `i` is below the count.
  pub steps_dim-counts :
      (t : Tiling) (dim origin_size : ℕ) {span step : ℕ}
      → get_elem? t.shape dim ≡ some span
      → get_elem? t.step_sizes dim ≡ some step
      → span ≤ origin_size
      → 0 < step
      → (n : ℕ) × (steps_dim div_ceil t dim origin_size ≡ done n)
        × ((i : ℕ) → (i < n) ↔ (i * step < origin_size))
  unfolding steps_dim
  steps_dim-counts t dim origin_size {span} {step} hs ht fits pos = (
    div_ceil origin_size step,
    rw (hs, at) (rw (le→leb span origin_size fits, ht, at)),
    λ i. (inside i, below i),
  )
    where
      inside : (i : ℕ) → i < div_ceil origin_size step → i * step < origin_size
      inside i lt = elim (Bool-cases (leb origin_size (i * step))) [
        | inl le ↦ absurd (omega (arith, contract.least origin_size step i pos (leb→le _ _ le)))
        | inr gt ↦ leb-false _ _ gt
      ]

      below : (i : ℕ) → i * step < origin_size → i < div_ceil origin_size step
      below i lt = elim (Bool-cases (leb (div_ceil origin_size step) i)) [
        | inl le ↦ absurd (grind (arith, contract.covers origin_size step pos, leb→le _ _ le))
        | inr gt ↦ leb-false _ _ gt
      ]
