-- ===== src/Search.antt =====
-- morello/src/search.rs: the reducer of implementations and the task that computes one Spec.
--
-- The actions of the Spec are applied before the task starts: `applied` holds their results in the
-- order of `actions`. `block` search over several tasks is not modelled. A `BTreeSet` is its sorted
-- list; the debug assertions on it are left out.
pub mod Reducer
pub mod Requests
pub mod Incomplete
pub mod Answers
mod Tests
mod Reduction
unfoldable pub use Reduction.*
use Prim.Native.Nat.{compare, Ordering}
use morello.Base.{
  ℕ, zero, suc, ◌+◌, ◌-◌, ◌*◌, ◌/◌, max, Bool, true, false, not, ◌&&◌, Option, none, some, List, [],
  ◌∷◌, ◌++◌, map, length, get_elem?, set, replicate, all_of, range_from, ltb, leb, ◌==◌,
  if◌then◌else◌, Outcome, done, panic, ◌>>=◌, ◌>>◌, assert, at,
}
use morello.Memory.{MemVec}
use morello.Cost.{Cost, cmp}
use morello.Imp.{ImplNode, from_impl, compute_impl_cost, visit_subspecs}

pub data WorkingPartialImpl (S : Type 0) : Type 0 where
  -- The tree, its Specs, their costs and the action that made the tree.
  constructing : ImplNode S → List S → List (Option Cost) → ℕ → WorkingPartialImpl S
  unsat sat : WorkingPartialImpl S

pub record Running (S : Type 0) : Type 0 where
  pub reducer : ImplReducer
  pub partial_impls : List (WorkingPartialImpl S)
  pub partial_impls_incomplete : ℕ
  pub request_batches_returned : ℕ
  pub max_children : ℕ

pub data SpecTask (S : Type 0) : Type 0 where
  running : Running S → SpecTask S
  complete : List (ℕ × Cost) → Bool → SpecTask S

-- What `Action::apply` gives.
pub data Applied (S : Type 0) : Type 0 where
  applied : ImplNode S → Applied S
  action_not_applicable out_of_memory spec_not_canonical : Applied S

abbrev pub is_some {ℓ} : {A : Type ℓ} → Option A → Bool
is_some none = false
is_some (some a) = true

-- The costs, where all of them are known.
unfoldable pub all_costs : List (Option Cost) → Option (List Cost)
all_costs [] = some []
all_costs (none ∷ cs) = none
all_costs (some c ∷ cs) = elim (all_costs cs) [ none ↦ none | some ds ↦ some (c ∷ ds) ]

-- The order in which a thread takes the actions.
unfoldable pub action_order : ℕ → ℕ → ℕ → List ℕ
action_order thread_idx thread_count n =
    let initial_skip = thread_idx * n / thread_count in
    range_from initial_skip (n - initial_skip) ++ range_from 0 initial_skip

module _ (div_ceil : ℕ → ℕ → ℕ) (processors : ℕ) {S : Type 0} where
  unfoldable pub subspecs_of : ImplNode S → List S
  subspecs_of partial_impl = (visit_subspecs (λ s acc. (acc ++ s ∷ [], true)) partial_impl []).0

  -- The body of the loop of `start`, for the action at `action_idx`.
  unfoldable pub start_action : ℕ → Applied S → Running S → Outcome (Running S)
  start_action action_idx (applied partial_impl) t =
      let subspecs = subspecs_of partial_impl in
      let deeper = max t.max_children (length subspecs) in
      assert (ltb action_idx 65536)
      >> (if length subspecs == 0
          then (from_impl div_ceil processors partial_impl >>= λ cost. done (record {
            reducer = insert t.reducer action_idx cost;
            partial_impls = t.partial_impls;
            partial_impls_incomplete = t.partial_impls_incomplete;
            request_batches_returned = 0;
            max_children = deeper;
          }))
          else done (record {
            reducer = t.reducer;
            partial_impls =
                t.partial_impls
                ++ constructing partial_impl subspecs (replicate (length subspecs) none) action_idx
                  ∷ [];
            partial_impls_incomplete = suc t.partial_impls_incomplete;
            request_batches_returned = 0;
            max_children = deeper;
          }))
  start_action action_idx action_not_applicable t = done t
  start_action action_idx out_of_memory t = done t
  start_action action_idx spec_not_canonical t = panic

  unfoldable pub start_loop : List (Applied S) → List ℕ → Running S → Outcome (Running S)
  start_loop all_actions [] t = done t
  start_loop all_actions (action_idx ∷ rest) t = do
    a ← at all_actions action_idx
    u ← start_action action_idx a t
    start_loop all_actions rest u

  unfoldable pub start : List (Applied S) → Option (List ℕ) → ℕ → ℕ → ℕ → Outcome (SpecTask S)
  start all_actions preferences top_k thread_idx thread_count = do
    reducer ← new_reducer top_k (elim preferences [ none ↦ [] | some p ↦ p ])
    t ← start_loop all_actions (action_order thread_idx thread_count (length all_actions)) (record {
      reducer = reducer;
      partial_impls = [];
      partial_impls_incomplete = 0;
      request_batches_returned = 0;
      max_children = 0;
    })
    done
        (if t.partial_impls_incomplete == 0 then complete (finalize t.reducer) false else running t)

  -- The requests of one batch: the Specs at `subspec_idx` of the trees from the one at `i` on.
  unfoldable pub batch_from : ℕ → ℕ → List (WorkingPartialImpl S) → List (S × (ℕ × ℕ))
  batch_from subspec_idx i [] = []
  batch_from subspec_idx i (p ∷ partial_impls) =
      let rest = batch_from subspec_idx (suc i) partial_impls in
      elim p [
        | constructing _ subspecs _ _ ↦ elim (get_elem? subspecs subspec_idx) [
          | none ↦ rest
          | some s ↦ (s, (i, subspec_idx)) ∷ rest
        ]
        | unsat ↦ rest
        | sat ↦ rest
      ]

  unfoldable pub next_request_batch : SpecTask S → Option (List (S × (ℕ × ℕ))) × SpecTask S
  next_request_batch (complete costs from_db) = (none, complete costs from_db)
  next_request_batch (running t) =
      if t.request_batches_returned == t.max_children then (none, running t) else (
        some (batch_from t.request_batches_returned 0 t.partial_impls),
        running (record {
          reducer = t.reducer;
          partial_impls = t.partial_impls;
          partial_impls_incomplete = t.partial_impls_incomplete;
          request_batches_returned = suc t.request_batches_returned;
          max_children = t.max_children;
        }),
      )

  -- A tree of the task is finished: its state is written, and the last one completes the task.
  unfoldable pub finish : Running S → ImplReducer → List (WorkingPartialImpl S) → SpecTask S
  finish t reducer partial_impls =
      let left = t.partial_impls_incomplete - 1 in
      if left == 0
      then complete (finalize reducer) false
      else running (record {
        reducer = reducer;
        partial_impls = partial_impls;
        partial_impls_incomplete = left;
        request_batches_returned = t.request_batches_returned;
        max_children = t.max_children;
      })

  -- A cost for the Spec at `child_idx` of a tree under construction.
  unfoldable pub resolve_cost :
      Running S → ℕ → ℕ → Cost → ImplNode S → List S → List (Option Cost) → ℕ → Outcome (SpecTask S)
  resolve_cost t working_impl_idx child_idx cost partial_impl subspecs subspec_costs action_idx = do
    held ← at subspec_costs child_idx
    assert (not (is_some held))
    let costs = set subspec_costs child_idx (some cost) in
        elim (all_costs costs) [
          | none ↦ done (
              running (record {
                reducer = t.reducer;
                partial_impls =
                    set t.partial_impls working_impl_idx
                      (constructing partial_impl subspecs costs action_idx);
                partial_impls_incomplete = t.partial_impls_incomplete;
                request_batches_returned = t.request_batches_returned;
                max_children = t.max_children;
              }))
          | some child_costs ↦
              compute_impl_cost div_ceil processors partial_impl child_costs >>= λ r. done (
                finish t (insert t.reducer action_idx r.0)
                  (set t.partial_impls working_impl_idx sat))
        ]

  unfoldable pub resolve_entry :
      Running S → ℕ × ℕ → Option Cost → WorkingPartialImpl S → Outcome (SpecTask S)
  resolve_entry t id (some cost) (constructing partial_impl subspecs subspec_costs action_idx) =
      resolve_cost t id.0 id.1 cost partial_impl subspecs subspec_costs action_idx
  resolve_entry t id none (constructing partial_impl subspecs subspec_costs action_idx) =
      done (finish t t.reducer (set t.partial_impls id.0 unsat))
  resolve_entry t id cost unsat = done (running t)
  resolve_entry t id cost sat = panic

  unfoldable pub resolve_request : SpecTask S → ℕ × ℕ → Option Cost → Outcome (SpecTask S)
  resolve_request (complete costs from_db) id cost = panic
  resolve_request (running t) id cost =
      if t.partial_impls_incomplete == 0
      then done (running t)
      else at t.partial_impls id.0 >>= λ entry. resolve_entry t id cost entry
