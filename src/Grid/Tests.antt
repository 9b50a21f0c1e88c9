-- ===== src/Grid/Tests.antt =====
-- The halving map of the source's own test, and the theorems of Grid at it.
use morello.Base.{ℕ, ◌*◌, ◌+◌, ◌/◌, ◌≡◌, refl, [], ◌∷◌, arith}
use morello.Grid.{SurMap, active, compose_iter, next_loop}
use morello.Grid.Maps.{IsInverse, remaining, IsNext, next_loop-IsNext}

abbrev halve : SurMap ℕ ℕ
halve = record { apply = λ t. t / 2; apply_inverse = λ i. (2 * i) ∷ (2 * i + 1) ∷ [] }

halve-IsInverse : IsInverse halve
halve-IsInverse c = (omega arith, (omega arith, tt))

composed_halves : remaining halve (compose_iter halve halve 2) ≡ 8 ∷ 9 ∷ 10 ∷ 11 ∷ []
unfolding compose_iter
composed_halves = refl

next_loop-IsNext_example :
    IsNext halve (remaining halve (active (5 ∷ []) (8 ∷ []))) (next_loop halve (5 ∷ []) (8 ∷ []))
next_loop-IsNext_example = next_loop-IsNext halve (5 ∷ []) (8 ∷ [])
