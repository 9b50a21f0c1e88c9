-- ===== src/Imp/Peaks.antt =====
-- morello/src/imp/: the peak memory of a pipeline.
use morello.Base.{
  ℕ, suc, ◌+◌, ◌≡◌, refl, List, map, length, length-map, ◌==◌, false, ==-false, Outcome, done,
  panic, ◌>>=◌, arith,
}
use morello.Cost.{Cost}
use morello.Imp.{
  pipe, memory_allocated, peak_memory_from_child_peaks, compute_main_cost, from_child_costs,
}

and_then_panic {ℓ κ} :
    {A : Type ℓ} {B : Type κ} (m : Outcome A) (g : A → Outcome B)
    → ((a : A) → g a ≡ panic)
    → (m >>= g) ≡ panic
and_then_panic (done a) g e = e a
and_then_panic panic g e = refl

-- A pipeline with one stage more than it has intermediates has no cost: the assertion on the
-- number of children in `peak_memory_from_child_peaks` fails, or an earlier step panics,
-- whatever the children cost.
pub from_child_costs-pipe :
    (div_ceil : ℕ → ℕ → ℕ) (processors : ℕ) (intermediates : List (List ℕ))
    (child_costs : List Cost)
    → length child_costs ≡ suc (length intermediates)
    → from_child_costs div_ceil processors (pipe intermediates) child_costs ≡ panic
unfolding from_child_costs memory_allocated peak_memory_from_child_peaks
from_child_costs-pipe div_ceil processors intermediates child_costs h =
    let n = length-map (λ (c : Cost). c.peaks) child_costs in
    let e : (length (map (λ (c : Cost). c.peaks) child_costs) + 1 == length intermediates) ≡ false =
      ==-false _ _ (λ e. omega arith) in
    and_then_panic
      (compute_main_cost div_ceil processors (pipe intermediates) (map (λ c. c.main) child_costs)) _
      (λ a. rw e refl)
