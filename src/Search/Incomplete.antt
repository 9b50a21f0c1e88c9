-- ===== src/Search/Incomplete.antt =====
-- morello/src/search.rs: the count of the trees that a task still constructs.
use morello.Base.{
  ℕ, zero, suc, ◌+◌, ◌-◌, ◌<◌, ◌≡◌, inl, inr, refl, List, [], ◌∷◌, ◌++◌, get_elem?, set, false, not,
  ltb, subst, ◌==◌, ==-false, Bool-cases, Option, Option-cases, none, some, Outcome, done, panic,
  ◌>>=◌, assert, at, arith, length, replicate,
}
use morello.Cost.{Cost}
use morello.Imp.{ImplNode, compute_impl_cost, from_impl}
use morello.Search.{
  ImplReducer, WorkingPartialImpl, constructing, unsat, sat, Running, SpecTask, running, complete,
  Applied, applied, action_not_applicable, out_of_memory, spec_not_canonical, is_some, all_costs,
  finish, resolve_cost, resolve_entry, resolve_request, start_action, start_loop, start,
  subspecs_of, new_reducer, action_order,
}

-- A predicate of the result, where there is one.
abbrev pub IfDone {ℓ κ} : {A : Type ℓ} → (A → Type κ) → Outcome A → Type κ
IfDone P (done a) = P a
IfDone P panic = Unit

IfDone-bind {ℓ κ μ} :
    {A : Type ℓ} {B : Type κ} (P : B → Type μ) (m : Outcome A) (f : A → Outcome B)
    → ((a : A) → m ≡ done a → IfDone P (f a))
    → IfDone P (m >>= f)
IfDone-bind P (done a) f h = h a refl
IfDone-bind P panic f h = tt

pub IfDone-done {ℓ κ} :
    {A : Type ℓ} (P : A → Type κ) (m : Outcome A) {a : A} → IfDone P m → m ≡ done a → P a
IfDone-done P m h e = subst (IfDone P) e h

IfDone-at {ℓ κ μ} :
    {A : Type ℓ} {B : Type κ} (P : B → Type μ) (xs : List A) (i : ℕ) (f : A → Outcome B)
    → ((a : A) → get_elem? xs i ≡ some a → IfDone P (f a))
    → IfDone P (at xs i >>= f)
IfDone-at P [] i f h = tt
IfDone-at P (x ∷ xs) zero f h = h x refl
IfDone-at P (x ∷ xs) (suc i) f h = IfDone-at P xs i f h

module _ {S : Type 0} where
  abbrev weight : WorkingPartialImpl S → ℕ
  weight (constructing _ _ _ _) = 1
  weight unsat = 0
  weight sat = 0

  -- The trees under construction.
  abbrev pub count : List (WorkingPartialImpl S) → ℕ
  count [] = 0
  count (p ∷ ps) = weight p + count ps

  count-set :
      (ps : List (WorkingPartialImpl S)) (i : ℕ) (q : WorkingPartialImpl S)
      {p : WorkingPartialImpl S}
      → get_elem? ps i ≡ some p
      → count (set ps i q) + weight p ≡ count ps + weight q
  count-set [] i q h = cc
  count-set (x ∷ ps) zero q {p} h = let e : x ≡ p = cc in rw e (omega arith)
  count-set (x ∷ ps) (suc i) q h = omega (arith, count-set ps i q h)

  count-snoc :
      (ps : List (WorkingPartialImpl S)) (q : WorkingPartialImpl S)
      → count (ps ++ q ∷ []) ≡ count ps + weight q
  count-snoc [] q = omega arith
  count-snoc (x ∷ ps) q = omega (arith, count-snoc ps q)

  abbrev pub IsCounted : Running S → Type 0
  IsCounted t = t.partial_impls_incomplete ≡ count t.partial_impls

  -- A running task counts its trees under construction, and there is one.
  abbrev pub IsTask : SpecTask S → Type 0
  IsTask (running t) = IsCounted t × (0 < t.partial_impls_incomplete)
  IsTask (complete costs from_db) = Unit

  module _ (div_ceil : ℕ → ℕ → ℕ) (processors : ℕ) where
    finish-IsTask :
        (t : Running S) (reducer : ImplReducer) (ps : List (WorkingPartialImpl S))
        → IsCounted t
        → count ps + 1 ≡ count t.partial_impls
        → IsTask (finish div_ceil processors t reducer ps)
    unfolding finish
    finish-IsTask t reducer ps counted e = elim (Bool-cases (t.partial_impls_incomplete - 1 == 0)) [
      | inl last ↦ rw last tt
      | inr more ↦ rw more (omega arith, ground arith)
    ]

    resolve_cost-IsTask :
        (t : Running S) (i j : ℕ) (cost : Cost) (imp : ImplNode S) (specs : List S)
        (costs : List (Option Cost)) (action : ℕ)
        → IsTask (running t)
        → get_elem? t.partial_impls i ≡ some (constructing imp specs costs action)
        → IfDone IsTask (resolve_cost div_ceil processors t i j cost imp specs costs action)
    unfolding resolve_cost
    resolve_cost-IsTask t i j cost imp specs costs action task here =
        IfDone-at IsTask costs j _ λ held _.
          IfDone-bind IsTask (assert (not (is_some held))) _ λ _ _.
            elim (Option-cases (all_costs (set costs j (some cost)))) [
              | inl waits ↦
                  let e =
                    count-set t.partial_impls i
                      (constructing imp specs (set costs j (some cost)) action) here in
                  rw waits (omega (arith, task.0, e), task.1)
              | inr (child_costs, all) ↦ rw all (
                  IfDone-bind IsTask (compute_impl_cost div_ceil processors imp child_costs) _
                    λ r _.
                      finish-IsTask t _ _ task.0
                        (omega (arith, count-set t.partial_impls i sat here)))
            ]

    resolve_entry-IsTask :
        (t : Running S) (id : ℕ × ℕ) (cost : Option Cost) (entry : WorkingPartialImpl S)
        → IsTask (running t)
        → get_elem? t.partial_impls id.0 ≡ some entry
        → IfDone IsTask (resolve_entry div_ceil processors t id cost entry)
    unfolding resolve_entry
    resolve_entry-IsTask t id (some cost) (constructing imp specs costs action) task here =
        resolve_cost-IsTask t id.0 id.1 cost imp specs costs action task here
    resolve_entry-IsTask t id none (constructing imp specs costs action) task here =
        finish-IsTask t _ _ task.0 (omega (arith, count-set t.partial_impls id.0 unsat here))
    resolve_entry-IsTask t id (some cost) unsat task here = task
    resolve_entry-IsTask t id none unsat task here = task
    resolve_entry-IsTask t id (some cost) sat task here = tt
    resolve_entry-IsTask t id none sat task here = tt

    -- Where a task counts its trees under construction and has at least one while it runs, so
    -- does the task that `resolve_request` gives for any request and answer, on every branch
    -- that does not panic.
    pub resolve_request-IsTask :
        (t : SpecTask S) (id : ℕ × ℕ) (cost : Option Cost)
        → IsTask t
        → IfDone IsTask (resolve_request div_ceil processors t id cost)
    unfolding resolve_request
    resolve_request-IsTask (complete costs from_db) id cost task = tt
    resolve_request-IsTask (running t) id cost task =
        let e : (t.partial_impls_incomplete == 0) ≡ false =
          ==-false _ _ (λ e. omega (arith, e, task.1)) in
        rw e (
          IfDone-at IsTask t.partial_impls id.0 _
            λ entry here. resolve_entry-IsTask t id cost entry task here)

    start_action-IsCounted :
        (i : ℕ) (a : Applied S) (t : Running S)
        → IsCounted t
        → IfDone IsCounted (start_action div_ceil processors i a t)
    unfolding start_action
    start_action-IsCounted i (applied imp) t c =
        IfDone-bind IsCounted (assert (ltb i 65536)) _ λ _ _.
          elim (Bool-cases (length (subspecs_of div_ceil processors imp) == 0)) [
            | inl leafless ↦
                rw leafless (IfDone-bind IsCounted (from_impl div_ceil processors imp) _ λ _ _. c)
            | inr more ↦ rw more (
                omega (
                  arith,
                  c,
                  count-snoc t.partial_impls (
                      constructing imp (subspecs_of div_ceil processors imp)
                        (replicate (length (subspecs_of div_ceil processors imp)) none) i),
                ))
          ]
    start_action-IsCounted i action_not_applicable t c = c
    start_action-IsCounted i out_of_memory t c = c
    start_action-IsCounted i spec_not_canonical t c = tt

    start_loop-IsCounted :
        (actions : List (Applied S)) (order : List ℕ) (t : Running S)
        → IsCounted t
        → IfDone IsCounted (start_loop div_ceil processors actions order t)
    unfolding start_loop
    start_loop-IsCounted actions [] t c = c
    start_loop-IsCounted actions (i ∷ order) t c = IfDone-at IsCounted actions i _ λ a _.
        IfDone-bind IsCounted (start_action div_ceil processors i a t) _ λ u e.
          start_loop-IsCounted actions order u
            (IfDone-done IsCounted _ (start_action-IsCounted i a t c) e)

    -- The task that `start` gives, where it does not panic, counts its trees under construction
    -- and has at least one if it runs.
    pub start-IsTask :
        (actions : List (Applied S)) (preferences : Option (List ℕ)) (top_k thread thread_count : ℕ)
        → IfDone IsTask (start div_ceil processors actions preferences top_k thread thread_count)
    unfolding start
    start-IsTask actions preferences top_k thread thread_count =
        IfDone-bind IsTask (new_reducer top_k _) _ λ reducer _.
          IfDone-bind IsTask
            (start_loop div_ceil processors actions
              (action_order thread thread_count (length actions)) _)
            _
            λ t e.
              let counted = IfDone-done IsCounted _ (start_loop-IsCounted actions _ _ refl) e in
              elim (Bool-cases (t.partial_impls_incomplete == 0)) [
                | inl none_left ↦ rw none_left tt
                | inr more ↦ rw more (counted, ground arith)
              ]
