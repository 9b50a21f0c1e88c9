-- ===== src/Cost/Tests.antt =====
-- Costs on two levels, and the theorems of Cost at them.
use Prim.Native.Nat.{Ordering}
use morello.Base.{◌≡◌, refl, [], ◌∷◌}
use morello.Cost.{Cost, cmp, cmp_peaks}

abbrev cheap : Cost
cheap = record { main = 10; peaks = 3 ∷ 0 ∷ 0 ∷ 4 ∷ []; depth = 2 }

abbrev taller : Cost
taller = record { main = 10; peaks = 3 ∷ 1 ∷ 0 ∷ 0 ∷ []; depth = 1 }

abbrev dear : Cost
dear = record { main = 11; peaks = 0 ∷ 0 ∷ 0 ∷ 0 ∷ []; depth = 1 }

cheap-taller : cmp cheap taller ≡ Ordering.lt
unfolding cmp cmp_peaks
cheap-taller = refl

taller-dear : cmp taller dear ≡ Ordering.lt
unfolding cmp
taller-dear = refl
