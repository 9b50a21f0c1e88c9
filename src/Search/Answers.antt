-- ===== src/Search/Answers.antt =====
-- morello/src/search.rs: `resolve_request` takes every answer to an open request.
use morello.Base.{
  ℕ, ◌≡◌, refl, ◌∙◌, inl, inr, List, get_elem?, set, false, ◌==◌, if◌then◌else◌, ==-false,
  Bool-cases, zero, suc, ap, ◌-◌, ◌⊎◌, ◌∷◌, [], ◌>>=◌, get_elem?-set_ne, get_elem?-set_self,
  get_elem?-lt, set-set, ◌≢◌, Outcome, Option, none, some, done, at, arith,
}
use morello.Cost.{Cost}
use morello.Imp.{ImplNode, compute_impl_cost}
use morello.Search.{
  WorkingPartialImpl, constructing, Running, SpecTask, running, complete, unsat, sat, finalize,
  insert, finish, all_costs, resolve_cost, resolve_entry, resolve_request,
}
use morello.Search.Incomplete.{IsTask, IfDone-done, resolve_request-IsTask}

-- The costs of a tree's Specs after the answers.
abbrev pub answered : List (Option Cost) → List (ℕ × Cost) → List (Option Cost)
answered costs [] = costs
answered costs ((j, cost) ∷ answers) = answered (set costs j (some cost)) answers

-- Each answer is for a Spec without a cost so far.
abbrev pub AreUnanswered : List (Option Cost) → List (ℕ × Cost) → Type 0
AreUnanswered costs [] = Unit
AreUnanswered costs ((j, cost) ∷ answers) =
    (get_elem? costs j ≡ some none) × AreUnanswered (set costs j (some cost)) answers

all_costs-none :
    (costs : List (Option Cost)) (j : ℕ) → get_elem? costs j ≡ some none → all_costs costs ≡ none
unfolding all_costs
all_costs-none [] j h = cc
all_costs-none (none ∷ costs) j h = refl
all_costs-none (some c ∷ costs) zero h = cc
all_costs-none (some c ∷ costs) (suc j) h = rw (all_costs-none costs j h) refl

module _ {S : Type 0} (div_ceil : ℕ → ℕ → ℕ) (processors : ℕ) where
  reaches_entry :
      (t : Running S) (id : ℕ × ℕ) (cost : Option Cost) {p : WorkingPartialImpl S}
      → IsTask (running t)
      → get_elem? t.partial_impls id.0 ≡ some p
      → resolve_request div_ceil processors (running t) id cost
        ≡ resolve_entry div_ceil processors t id cost p
  unfolding resolve_request
  reaches_entry t id cost task here =
      let e : (t.partial_impls_incomplete == 0) ≡ false =
        ==-false _ _ (λ e. omega (arith, e, task.1)) in
      rw (e, at, here) refl

  unsat_ignored :
      (t : Running S) (id : ℕ × ℕ) (later : Option Cost)
      → (t.partial_impls_incomplete == 0) ≡ false
      → get_elem? t.partial_impls id.0 ≡ some unsat
      → resolve_request div_ceil processors (running t) id later ≡ done (running t)
  unfolding resolve_request resolve_entry
  unsat_ignored t id none more marked = rw (more, at, marked) refl
  unsat_ignored t id (some cost) more marked = rw (more, at, marked) refl

  -- An unsatisfiable answer for a tree under construction of a running task that counts its trees
  -- never panics. If the tree was the last one, the task completes with what its reducer holds. If
  -- not, the task runs on, with the same reducer and one tree less under construction; each other
  -- tree is as it was; and when the next answer is for a Spec of this tree, it changes nothing.
  pub resolve_request-unsatisfiable :
      (t : Running S) (id : ℕ × ℕ) (k j : ℕ) (later : Option Cost) {imp : ImplNode S}
      {specs : List S} {costs : List (Option Cost)} {action : ℕ}
      → IsTask (running t)
      → get_elem? t.partial_impls id.0 ≡ some (constructing imp specs costs action)
      → id.0 ≢ k
      → ((t.partial_impls_incomplete ≡ 1)
          × (resolve_request div_ceil processors (running t) id none
              ≡ done (complete (finalize t.reducer) false)))
        ⊎ ((u : Running S) × (resolve_request div_ceil processors (running t) id none
              ≡ done (running u))
            × (u.reducer ≡ t.reducer)
            × (suc u.partial_impls_incomplete ≡ t.partial_impls_incomplete)
            × (get_elem? u.partial_impls k ≡ get_elem? t.partial_impls k)
            × (resolve_request div_ceil processors (running u) (id.0, j) later ≡ done (running u)))
  unfolding resolve_entry finish
  resolve_request-unsatisfiable t id k j later task here other =
      let e = reaches_entry t id none task here in
      elim (Bool-cases (t.partial_impls_incomplete - 1 == 0)) [
        | inl last ↦ inl (ground (arith, task.1), e ∙ rw last refl)
        | inr more ↦ inr (
          without,
          e ∙ rw more refl,
          refl,
          ground (arith, task.1),
          get_elem?-set_ne t.partial_impls id.0 k unsat other,
          unsat_ignored without (id.0, j) later more
              (get_elem?-set_self t.partial_impls id.0 unsat
                (get_elem?-lt t.partial_impls id.0 here)),
        )
      ]
    where
      without : Running S
      without = record t {
        partial_impls = set t.partial_impls id.0 unsat;
        partial_impls_incomplete = t.partial_impls_incomplete - 1;
      }

  -- The answers for the Specs of the tree `i`, in the order in which they come.
  abbrev pub resolve_all : SpecTask S → ℕ → List (ℕ × Cost) → Outcome (SpecTask S)
  resolve_all t i [] = done t
  resolve_all t i ((j, cost) ∷ answers) =
      resolve_request div_ceil processors t (i, j) (some cost) >>= λ u. resolve_all u i answers

  abbrev recorded : Running S → ℕ → WorkingPartialImpl S → Running S
  recorded t i p = record t { partial_impls = set t.partial_impls i p }

  -- An answer that leaves others open is recorded.
  answer-recorded :
      (t : Running S) (i j : ℕ) (cost : Cost) {imp : ImplNode S} {specs : List S}
      {costs : List (Option Cost)} {action : ℕ}
      → IsTask (running t)
      → get_elem? t.partial_impls i ≡ some (constructing imp specs costs action)
      → get_elem? costs j ≡ some none
      → all_costs (set costs j (some cost)) ≡ none
      → resolve_request div_ceil processors (running t) (i, j) (some cost)
        ≡ done (running (recorded t i (constructing imp specs (set costs j (some cost)) action)))
  unfolding resolve_entry resolve_cost
  answer-recorded t i j cost task here unanswered waits =
      reaches_entry t (i, j) (some cost) task here ∙ rw (at, unanswered, waits) refl

  answer-last :
      (t : Running S) (i j : ℕ) (cost : Cost) {imp : ImplNode S} {specs : List S}
      {costs : List (Option Cost)} {action : ℕ} {child_costs : List Cost} {r : Cost × List Cost}
      → IsTask (running t)
      → get_elem? t.partial_impls i ≡ some (constructing imp specs costs action)
      → get_elem? costs j ≡ some none
      → all_costs (set costs j (some cost)) ≡ some child_costs
      → compute_impl_cost div_ceil processors imp child_costs ≡ done r
      → resolve_request div_ceil processors (running t) (i, j) (some cost)
        ≡ done
            (finish div_ceil processors t (insert t.reducer action r.0) (set t.partial_impls i sat))
  unfolding resolve_entry resolve_cost
  answer-last t i j cost task here unanswered all e =
      reaches_entry t (i, j) (some cost) task here ∙ rw (at, unanswered, all, e) refl

  resolve_all-finish :
      (t : Running S) (i : ℕ) (a : ℕ × Cost) (answers : List (ℕ × Cost)) {imp : ImplNode S}
      {specs : List S} {costs : List (Option Cost)} {action : ℕ} {child_costs : List Cost}
      {r : Cost × List Cost}
      → IsTask (running t)
      → get_elem? t.partial_impls i ≡ some (constructing imp specs costs action)
      → AreUnanswered costs (a ∷ answers)
      → all_costs (answered costs (a ∷ answers)) ≡ some child_costs
      → compute_impl_cost div_ceil processors imp child_costs ≡ done r
      → resolve_all (running t) i (a ∷ answers)
        ≡ done
            (finish div_ceil processors t (insert t.reducer action r.0) (set t.partial_impls i sat))
  unfolding finish
  resolve_all-finish t i (j, cost) [] task here (unanswered, _) all e =
      ap (λ m. m >>= λ u. resolve_all u i []) (answer-last t i j cost task here unanswered all e)
  resolve_all-finish t i (j, cost) (b ∷ answers) {imp} {specs} {costs} {action} {r = r} task here
        (unanswered, waiting) all e =
      let p = constructing imp specs (set costs j (some cost)) action in
      let u = recorded t i p in
      let step =
        answer-recorded t i j cost task here unanswered
          (all_costs-none (set costs j (some cost)) b.0 waiting.0) in
      let still =
        IfDone-done IsTask _
          (resolve_request-IsTask div_ceil processors (running t) (i, j) (some cost) task) step in
      let there = get_elem?-set_self t.partial_impls i p (get_elem?-lt t.partial_impls i here) in
      ap (λ m. m >>= λ u. resolve_all u i (b ∷ answers)) step
      ∙ resolve_all-finish u i b answers still there waiting all e
      ∙ ap (λ ps. done (finish div_ceil processors t (insert t.reducer action r.0) ps))
          (set-set t.partial_impls i p sat)

  -- A running task that counts its trees gets a cost for every Spec of a tree under construction, in
  -- any order, each once, and for no other tree in between; and the cost of the tree, with the
  -- answered costs in the order of its Specs, can be computed. Then no answer panics, and in the end
  -- the reducer has taken that cost with the action of the tree, and the tree counts no more: if it
  -- was the last one, the task completes with what the reducer then holds, and if not it runs on.
  pub resolve_all-satisfiable :
      (t : Running S) (i : ℕ) (a : ℕ × Cost) (answers : List (ℕ × Cost)) {imp : ImplNode S}
      {specs : List S} {costs : List (Option Cost)} {action : ℕ} {child_costs : List Cost}
      {r : Cost × List Cost}
      → IsTask (running t)
      → get_elem? t.partial_impls i ≡ some (constructing imp specs costs action)
      → AreUnanswered costs (a ∷ answers)
      → all_costs (answered costs (a ∷ answers)) ≡ some child_costs
      → compute_impl_cost div_ceil processors imp child_costs ≡ done r
      → resolve_all (running t) i (a ∷ answers)
        ≡ done (
            if t.partial_impls_incomplete == 1
            then complete (finalize (insert t.reducer action r.0)) false
            else running (record t {
              reducer = insert t.reducer action r.0;
              partial_impls = set t.partial_impls i sat;
              partial_impls_incomplete = t.partial_impls_incomplete - 1;
            }))
  unfolding finish
  resolve_all-satisfiable t i a answers {action} {r} task here unanswered all e =
      let same : (t.partial_impls_incomplete - 1 == 0) ≡ (t.partial_impls_incomplete == 1) =
        ground (arith, task.1) in
      resolve_all-finish t i a answers task here unanswered all e
      ∙ ap
          (λ b. done (
            if b
            then complete (finalize (insert t.reducer action r.0)) false
            else running (record t {
              reducer = insert t.reducer action r.0;
              partial_impls = set t.partial_impls i sat;
              partial_impls_incomplete = t.partial_impls_incomplete - 1;
            })))
          same
