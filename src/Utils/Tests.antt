-- ===== src/Utils/Tests.antt =====
-- A run of `iter_multidim_range` of morello/src/utils.rs, and its theorem at a box.
use morello.Base.{ℕ, ◌≡◌, refl, List, [], ◌∷◌, All, done, arith}
use morello.Utils.Ranges.{Range, axes_of, advance, visit_loop, any_empty, iter_multidim_range}
use morello.Utils.Points.{IsWithin, offset_of, Any}
use morello.Utils.Visits.{iter_multidim_range-IsWithin}

abbrev rows : Range
rows = record { start = 1; end = 3 }

abbrev columns : Range
columns = record { start = 0; end = 2 }

box_run :
    iter_multidim_range (rows ∷ columns ∷ []) (4 ∷ 1 ∷ [])
    ≡ done ((4, 1 ∷ 0 ∷ []) ∷ (5, 1 ∷ 1 ∷ []) ∷ (8, 2 ∷ 0 ∷ []) ∷ (9, 2 ∷ 1 ∷ []) ∷ [])
unfolding iter_multidim_range visit_loop advance any_empty
box_run = refl

iter_multidim_range-IsWithin_example :
    (visits : List (ℕ × List ℕ)) × (iter_multidim_range (rows ∷ columns ∷ []) (4 ∷ 1 ∷ [])
      ≡ done visits)
    × ((pt : List ℕ)
        → IsWithin (axes_of (rows ∷ columns ∷ []) (4 ∷ 1 ∷ [])) pt
        → Any (λ v. v ≡ (offset_of (axes_of (rows ∷ columns ∷ []) (4 ∷ 1 ∷ [])) pt, pt)) visits)
    × All
        (λ v.
          IsWithin (axes_of (rows ∷ columns ∷ []) (4 ∷ 1 ∷ [])) v.1
          × (v.0 ≡ offset_of (axes_of (rows ∷ columns ∷ []) (4 ∷ 1 ∷ [])) v.1))
        visits
iter_multidim_range-IsWithin_example =
    iter_multidim_range-IsWithin rows (columns ∷ []) (4 ∷ 1 ∷ []) refl (omega arith)
