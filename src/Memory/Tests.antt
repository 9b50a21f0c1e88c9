-- ===== src/Memory/Tests.antt =====
-- Runs of the functions of morello/src/memorylimits.rs, and the theorems at concrete inputs.
use morello.Base.{ℕ, ◌≡◌, refl, true, Option, none, some, List, [], ◌∷◌, Outcome, arith}
use morello.Utils.Bits.{bit_length, bit_length_inverse, prev_power_of_two, leading_zeros}
use morello.Memory.{
  MemVec, MemoryLimits, standard, simple, inner, new, checked_sub_snap_down, transition,
  partial_cmp, le,
}
use morello.Memory.Subtract.{AreTaken, checked_sub_snap_down-AreTaken}
use morello.Memory.Transition.{IsTransition, transition-inner, transition_simple-runs_on}
use morello.Memory.Order.{partial_cmp-misses_le}

-- 64, 32, 8 and 0 bytes.
abbrev limits : MemVec
limits = 7 ∷ 6 ∷ 4 ∷ 0 ∷ []

abbrev request : List ℕ
request = 10 ∷ 0 ∷ 8 ∷ 0 ∷ []

limits-new : new (64 ∷ 32 ∷ 8 ∷ 0 ∷ []) ≡ limits
unfolding new bit_length leading_zeros
limits-new = refl

-- 54 bytes are left of 64, which makes 32.
subtract_run : checked_sub_snap_down limits request ≡ some (6 ∷ 6 ∷ 0 ∷ 0 ∷ [])
unfolding checked_sub_snap_down bit_length bit_length_inverse prev_power_of_two leading_zeros
subtract_run = refl

checked_sub_snap_down-AreTaken_example : AreTaken limits request (6 ∷ 6 ∷ 0 ∷ 0 ∷ [])
checked_sub_snap_down-AreTaken_example =
    checked_sub_snap_down-AreTaken limits request (omega arith) subtract_run

transition-inner_example :
    (o : Outcome (Option (List MemoryLimits))) × (transition 1
        (standard limits)
        (inner (request ∷ (65 ∷ []) ∷ []))
      ≡ some o)
    × IsTransition limits (request ∷ (65 ∷ []) ∷ []) o
transition-inner_example = transition-inner limits (request ∷ (65 ∷ []) ∷ []) 1 (omega arith)

transition_simple-runs_on_example : transition 1000 (standard limits) (simple request) ≡ none
transition_simple-runs_on_example =
    transition_simple-runs_on limits request (omega arith) subtract_run 1000

le_run : le (1 ∷ 1 ∷ []) (1 ∷ 2 ∷ []) ≡ true
unfolding le
le_run = refl

le_run_above : le (1 ∷ 2 ∷ []) (3 ∷ 2 ∷ []) ≡ true
unfolding le
le_run_above = refl

partial_cmp-misses_le_example :
    (le (1 ∷ 1 ∷ []) (1 ∷ 2 ∷ []) ≡ true) × (partial_cmp (1 ∷ 1 ∷ []) (1 ∷ 2 ∷ []) ≡ none)
partial_cmp-misses_le_example =
    partial_cmp-misses_le 1 (1 ∷ []) (2 ∷ []) (omega arith) (λ h. absurd (omega arith))
