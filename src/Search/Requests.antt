-- ===== src/Search/Requests.antt =====
-- morello/src/search.rs: the batches of requests of a task.
use morello.Base.{
  ℕ, zero, suc, ◌+◌, ◌≡◌, ◌⊎◌, inl, inr, refl, ap, sym, ◌∙◌, List, [], ◌∷◌, get_elem?, Option, none,
  some, All, arith,
}
use morello.Search.{WorkingPartialImpl, constructing, unsat, sat, batch_from}

module _ {S : Type 0} where
  -- The Spec that the tree at index `i` needs as its `j`-th, while it is under construction.
  abbrev pub needed : List (WorkingPartialImpl S) → ℕ → ℕ → Option S
  needed [] i j = none
  needed (constructing _ subspecs _ _ ∷ ps) zero j = get_elem? subspecs j
  needed (unsat ∷ ps) zero j = none
  needed (sat ∷ ps) zero j = none
  needed (p ∷ ps) (suc i) j = needed ps i j

  abbrev pub AmongRequests : S × (ℕ × ℕ) → List (S × (ℕ × ℕ)) → Type 0
  AmongRequests r [] = ⊥
  AmongRequests r (q ∷ rs) = (r ≡ q) ⊎ AmongRequests r rs

  -- A request that some tree needs, for the trees from index `k` on.
  abbrev pub IsNeeded : List (WorkingPartialImpl S) → ℕ → ℕ → S × (ℕ × ℕ) → Type 0
  IsNeeded ps j k (s, (idx, child)) =
      (child ≡ j) × ((i : ℕ) × ((idx ≡ k + i) × (needed ps i j ≡ some s)))

  needed_later :
      (p : WorkingPartialImpl S) (ps : List (WorkingPartialImpl S)) (i j : ℕ)
      → needed (p ∷ ps) (suc i) j ≡ needed ps i j
  needed_later (constructing _ _ _ _) ps i j = refl
  needed_later unsat ps i j = refl
  needed_later sat ps i j = refl

  IsNeeded-later :
      (p : WorkingPartialImpl S) (ps : List (WorkingPartialImpl S)) (j k : ℕ) (r : S × (ℕ × ℕ))
      → IsNeeded ps j (suc k) r
      → IsNeeded (p ∷ ps) j k r
  IsNeeded-later p ps j k (s, (idx, c)) (same, (i, (e, h))) =
      (same, (suc i, (omega arith, needed_later p ps i j ∙ h)))

  All-later :
      (p : WorkingPartialImpl S) (ps : List (WorkingPartialImpl S)) (j k : ℕ)
      (rs : List (S × (ℕ × ℕ)))
      → All (IsNeeded ps j (suc k)) rs
      → All (IsNeeded (p ∷ ps) j k) rs
  All-later p ps j k [] h = tt
  All-later p ps j k (r ∷ rs) h = (IsNeeded-later p ps j k r h.0, All-later p ps j k rs h.1)

  -- The batch with the request of one more tree.
  abbrev add_request : Option S → ℕ × ℕ → List (S × (ℕ × ℕ)) → List (S × (ℕ × ℕ))
  add_request o id rest = elim o [ none ↦ rest | some s ↦ (s, id) ∷ rest ]

  shift :
      (s : S) (k i j : ℕ) (rs : List (S × (ℕ × ℕ)))
      → AmongRequests (s, (suc k + i, j)) rs
      → AmongRequests (s, (k + suc i, j)) rs
  shift s k i j rs h = let e : k + suc i ≡ suc k + i = omega arith in rw e h

  add_request-All :
      (P : S × (ℕ × ℕ) → Type 0) (o : Option S) (id : ℕ × ℕ) (rest : List (S × (ℕ × ℕ)))
      → ((s : S) → o ≡ some s → P (s, id))
      → All P rest
      → All P (add_request o id rest)
  add_request-All P none id rest h a = a
  add_request-All P (some s) id rest h a = (h s refl, a)

  add_request-head :
      (o : Option S) (id : ℕ × ℕ) (rest : List (S × (ℕ × ℕ))) {s : S}
      → o ≡ some s
      → AmongRequests (s, id) (add_request o id rest)
  add_request-head none id rest h = absurd (cc h)
  add_request-head (some t) id rest {s} h = inl (let e : t ≡ s = cc h in ap (λ x. (x, id)) (sym e))

  add_request-tail :
      (o : Option S) (id : ℕ × ℕ) (rest : List (S × (ℕ × ℕ))) (r : S × (ℕ × ℕ))
      → AmongRequests r rest
      → AmongRequests r (add_request o id rest)
  add_request-tail none id rest r h = h
  add_request-tail (some t) id rest r h = inr h

  module _ (div_ceil : ℕ → ℕ → ℕ) (processors : ℕ) where
    -- Every request of a batch is for a Spec that a tree under construction needs at the batch's
    -- index, and names that tree and that index.
    pub batch_from-IsNeeded :
        (ps : List (WorkingPartialImpl S)) (j k : ℕ)
        → All (IsNeeded ps j k) (batch_from div_ceil processors j k ps)
    unfolding batch_from
    batch_from-IsNeeded [] j k = tt
    batch_from-IsNeeded (constructing imp specs costs action ∷ ps) j k =
        let rest =
          All-later (constructing imp specs costs action) ps j k _
            (batch_from-IsNeeded ps j (suc k)) in
        add_request-All (IsNeeded (constructing imp specs costs action ∷ ps) j k)
          (get_elem? specs j) (k, j) _ (λ s here. (refl, (zero, (omega arith, here)))) rest
    batch_from-IsNeeded (unsat ∷ ps) j k =
        All-later unsat ps j k _ (batch_from-IsNeeded ps j (suc k))
    batch_from-IsNeeded (sat ∷ ps) j k = All-later sat ps j k _ (batch_from-IsNeeded ps j (suc k))

    -- Every Spec that a tree under construction needs at the batch's index is requested, under the
    -- tree's own index.
    pub needed-batch_from :
        (ps : List (WorkingPartialImpl S)) (i j k : ℕ) {s : S}
        → needed ps i j ≡ some s
        → AmongRequests (s, (k + i, j)) (batch_from div_ceil processors j k ps)
    unfolding batch_from
    needed-batch_from [] i j k h = absurd (cc h)
    needed-batch_from (constructing imp specs costs action ∷ ps) zero j k {s} h =
        let here =
          add_request-head (get_elem? specs j) (k, j) (batch_from div_ceil processors j (suc k) ps)
            h in
        let e : k + zero ≡ k = omega arith in rw e here
    needed-batch_from (constructing imp specs costs action ∷ ps) (suc i) j k {s} h =
        add_request-tail (get_elem? specs j) (k, j) _ (s, (k + suc i, j))
          (shift s k i j _ (needed-batch_from ps i j (suc k) h))
    needed-batch_from (unsat ∷ ps) zero j k h = absurd (cc h)
    needed-batch_from (unsat ∷ ps) (suc i) j k {s} h =
        shift s k i j _ (needed-batch_from ps i j (suc k) h)
    needed-batch_from (sat ∷ ps) zero j k h = absurd (cc h)
    needed-batch_from (sat ∷ ps) (suc i) j k {s} h =
        shift s k i j _ (needed-batch_from ps i j (suc k) h)
