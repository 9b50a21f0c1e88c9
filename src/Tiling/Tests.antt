-- ===== src/Tiling/Tests.antt =====
-- Runs of the functions of morello/src/tiling.rs, and the theorems at concrete inputs.
use morello.Base.{ℕ, ◌-◌, ◌*◌, ◌≡◌, refl, [], ◌∷◌, done, inl, ceiling, arith}
use morello.Tiling.{Tiling, steps_dim, steps, boundary_size, steps_from}
use morello.Tiling.Boundary.{IsFirstPartial, boundary_size-IsFirstPartial}

-- The tiling of the source's own test.
abbrev sliding : Tiling
sliding = record { shape = 1 ∷ 3 ∷ 1 ∷ 3 ∷ 3 ∷ []; step_sizes = 1 ∷ 3 ∷ 2 ∷ 1 ∷ 1 ∷ [] }

steps_run : steps ceiling sliding (1 ∷ 4 ∷ 2 ∷ 4 ∷ 4 ∷ []) ≡ done 32
unfolding steps steps_from steps_dim
steps_run = refl

boundary_run : boundary_size sliding 1 4 ≡ done 1
unfolding boundary_size
boundary_run = refl

boundary_size-IsFirstPartial_example :
    (tile : ℕ) × IsFirstPartial 3 3 10 tile × (boundary_size sliding 1 10 ≡ done (10 - tile * 3))
boundary_size-IsFirstPartial_example =
    boundary_size-IsFirstPartial sliding 1 10 refl refl (omega arith) (omega arith)
      (inl (omega arith))
