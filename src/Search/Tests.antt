-- ===== src/Search/Tests.antt =====
-- Small tasks, and the theorems of Search at them.
use morello.Base.{
  ◌⊎◌, suc, ◌++◌, ◌==◌, set, get_elem?, if◌then◌else◌, false, done, some, ℕ, ◌≡◌, refl, inl, inr,
  none, List, [], ◌∷◌, ceiling, arith,
}
use morello.Cost.{Cost}
use morello.Utils.Bits.{bit_length, leading_zeros, bit_length_inverse}
use morello.Memory.{snap_memvec_up}
use morello.Imp
use morello.Imp.{
  from_child_costs, compute_main_cost, compute_impl_cost, ImplNode, spec_app, node, block, leaf,
  child,
}
use morello.Search.{
  all_costs, Running, ImplReducer, new_reducer, finalize, all_unique, Entry, one,
  WorkingPartialImpl, constructing, unsat, SpecTask, running, complete, insert, sat, applied,
  out_of_memory, resolve_request, start,
}
use morello.Search.Reducer.{IsLeastOf, inserted, finalize-IsLeastOf, finalize_agree}
use morello.Search.Answers.{resolve_all, resolve_request-unsatisfiable, resolve_all-satisfiable}
use morello.Search.Incomplete.{IsTask, IfDone, resolve_request-IsTask, start-IsTask}

abbrev entry_of : ℕ → ℕ → Entry
entry_of main action = (record { main = main; peaks = 0 ∷ 0 ∷ 0 ∷ 0 ∷ []; depth = 1 }, action)

abbrev reducer : ImplReducer
reducer = record { results = one none; top_k = 1; preferences = 2 ∷ [] }

reducer_run : new_reducer 1 (2 ∷ []) ≡ done reducer
unfolding new_reducer all_unique
reducer_run = refl

finalize-IsLeastOf_example :
    (b : Entry) × (finalize (inserted reducer (entry_of 5 0 ∷ entry_of 3 2 ∷ entry_of 3 1 ∷ []))
      ≡ (b.1, b.0) ∷ [])
    × IsLeastOf b (entry_of 5 0 ∷ entry_of 3 2 ∷ entry_of 3 1 ∷ [])
finalize-IsLeastOf_example =
    finalize-IsLeastOf (2 ∷ []) (entry_of 5 0) (entry_of 3 2 ∷ entry_of 3 1 ∷ []) reducer_run refl
      (refl, (refl, tt))

finalize_agree_example :
    finalize (inserted reducer (entry_of 5 0 ∷ entry_of 3 1 ∷ []))
    ≡ finalize (inserted reducer (entry_of 3 1 ∷ entry_of 5 0 ∷ []))
finalize_agree_example =
    finalize_agree (2 ∷ []) (entry_of 5 0) (entry_of 3 1 ∷ []) (entry_of 3 1) (entry_of 5 0 ∷ [])
      reducer_run (refl, (refl, tt)) (refl, (refl, tt)) (inr (inl refl), (inl refl, tt))
      (inr (inl refl), (inl refl, tt))

-- A block of the Specs 3 and 4.
abbrev two_specs : ImplNode ℕ
two_specs = node block (child (spec_app 3) (child (spec_app 4) leaf))

abbrev trees : List (WorkingPartialImpl ℕ)
trees = unsat ∷ constructing two_specs (3 ∷ 4 ∷ []) (none ∷ none ∷ []) 7 ∷ []

abbrev task_state : Running ℕ
task_state = record {
  reducer = record { results = one none; top_k = 1; preferences = [] };
  partial_impls = trees;
  partial_impls_incomplete = 1;
  request_batches_returned = 1;
  max_children = 2;
}

abbrev task : SpecTask ℕ
task = running task_state

resolve_request-IsTask_example : IfDone IsTask (resolve_request ceiling 4 task (1, 0) none)
resolve_request-IsTask_example =
    resolve_request-IsTask ceiling 4 task (1, 0) none (refl, omega arith)

start-IsTask_example :
    IfDone IsTask (start ceiling 4 (applied two_specs ∷ out_of_memory ∷ []) none 1 0 1)
start-IsTask_example = start-IsTask ceiling 4 (applied two_specs ∷ out_of_memory ∷ []) none 1 0 1

-- With another tree under construction, the third.
abbrev two_trees : Running ℕ
two_trees = record task_state {
  partial_impls = trees ++ constructing two_specs (5 ∷ 6 ∷ []) (none ∷ none ∷ []) 9 ∷ [];
  partial_impls_incomplete = 2;
}

resolve_request-unsatisfiable_example :
    ((two_trees.partial_impls_incomplete ≡ 1)
      × (resolve_request ceiling 4 (running two_trees) (1, 0) none
          ≡ done (complete (finalize two_trees.reducer) false)))
    ⊎ ((u : Running ℕ) × (resolve_request ceiling 4 (running two_trees) (1, 0) none
          ≡ done (running u))
        × (u.reducer ≡ two_trees.reducer)
        × (suc u.partial_impls_incomplete ≡ 2)
        × (get_elem? u.partial_impls 2 ≡ get_elem? two_trees.partial_impls 2)
        × (resolve_request ceiling 4 (running u) (1, 1) (some (entry_of 5 0).0) ≡ done (running u)))
resolve_request-unsatisfiable_example =
    resolve_request-unsatisfiable ceiling 4 two_trees (1, 0) 2 1 (some (entry_of 5 0).0)
      (refl, omega arith) refl (λ e. omega (arith, e))

abbrev block_cost : Cost
block_cost = record { main = 8; peaks = 0 ∷ 0 ∷ 0 ∷ 0 ∷ []; depth = 2 }

block_run :
    compute_impl_cost ceiling 4 two_specs ((entry_of 3 0).0 ∷ (entry_of 5 0).0 ∷ [])
    ≡ done (block_cost, [])
unfolding compute_impl_cost from_child_costs compute_main_cost
    morello.Imp.peak_memory_from_child_peaks morello.Imp.memory_allocated snap_memvec_up
    morello.Imp.max_depth morello.Imp.peak_simple bit_length leading_zeros bit_length_inverse
    Imp.reduce_costs Imp.saturating_sum Imp.raise_peak morello.Utils.Bits.next_binary_power
block_run = refl

both_known :
    all_costs (some (entry_of 3 0).0 ∷ some (entry_of 5 0).0 ∷ [])
    ≡ some ((entry_of 3 0).0 ∷ (entry_of 5 0).0 ∷ [])
unfolding all_costs
both_known = refl

-- The second Spec is answered before the first.
resolve_all-satisfiable_example :
    resolve_all ceiling 4 task 1 ((1, (entry_of 5 0).0) ∷ (0, (entry_of 3 0).0) ∷ [])
    ≡ done (
        if 1 == 1
        then complete (finalize (insert task_state.reducer 7 block_cost)) false
        else running (record task_state {
          reducer = insert task_state.reducer 7 block_cost;
          partial_impls = set trees 1 sat;
          partial_impls_incomplete = 0;
        }))
resolve_all-satisfiable_example =
    resolve_all-satisfiable ceiling 4 task_state 1 (1, (entry_of 5 0).0)
      ((0, (entry_of 3 0).0) ∷ []) (refl, omega arith) refl (refl, (refl, tt)) both_known block_run
