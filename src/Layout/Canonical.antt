-- ===== src/Layout/Canonical.antt =====
-- morello/src/layout.rs: the order of the dimensions of size 1.
use morello.Base.{
  ℕ, zero, suc, ◌≤◌, ◌≡◌, refl, ap, sym, ◌∙◌, inl, inr, false, List, [], ◌∷◌, ◌++◌, length,
  replicate, leb, ◌==◌, ==_iff, Bool-cases, snoc_assoc, length-snoc, arith,
}
use morello.Layout.{Dim}
use morello.Layout.Update.{insert_dim, sort_dims, reorder_loop, descends, noncanon_loop}

length-insert_dim : (d : Dim) (dims : List Dim) → length (insert_dim d dims) ≡ suc (length dims)
unfolding insert_dim
length-insert_dim d [] = refl
length-insert_dim d (e ∷ dims) = elim (Bool-cases (leb d.0 e.0)) [
  | inl first ↦ rw first refl
  | inr later ↦ rw later (ap suc (length-insert_dim d dims))
]

length-sort_dims : (dims : List Dim) → length (sort_dims dims) ≡ length dims
unfolding sort_dims
length-sort_dims [] = refl
length-sort_dims (d ∷ dims) = length-insert_dim d (sort_dims dims) ∙ ap suc (length-sort_dims dims)

descends-cons :
    (d e : Dim) (dims : List Dim)
    → d.0 ≤ e.0
    → descends (e ∷ dims) ≡ false
    → descends (d ∷ e ∷ dims) ≡ false
unfolding descends
descends-cons d e dims le h = ground (arith, h)

descends-insert_later :
    (d e : Dim) (dims : List Dim)
    → e.0 ≤ d.0
    → descends (e ∷ dims) ≡ false
    → descends (insert_dim d dims) ≡ false
    → descends (e ∷ insert_dim d dims) ≡ false
unfolding descends insert_dim
descends-insert_later d e [] le h k = ground arith
descends-insert_later d e (f ∷ dims) le h k = elim (Bool-cases (leb d.0 f.0)) [
  | inl first ↦ rw first (descends-cons e d (f ∷ dims) le (rw first at k))
  | inr later ↦ rw later (descends-cons e f (insert_dim d dims) (ground arith) (rw later at k))
]

descends_tail : (e : Dim) (dims : List Dim) → descends (e ∷ dims) ≡ false → descends dims ≡ false
unfolding descends
descends_tail e [] h = refl
descends_tail e (f ∷ dims) h = ground (arith, h)

descends-insert_dim :
    (d : Dim) (dims : List Dim) → descends dims ≡ false → descends (insert_dim d dims) ≡ false
unfolding insert_dim
descends-insert_dim d [] h = unfold descends in refl
descends-insert_dim d (e ∷ dims) h = elim (Bool-cases (leb d.0 e.0)) [
  | inl first ↦ rw first (descends-cons d e dims (ground arith) h)
  | inr later ↦ rw later (
      descends-insert_later d e dims (ground arith) h
        (descends-insert_dim d dims (descends_tail e dims h)))
]

descends-sort_dims : (dims : List Dim) → descends (sort_dims dims) ≡ false
unfolding sort_dims
descends-sort_dims [] = unfold descends in refl
descends-sort_dims (d ∷ dims) = descends-insert_dim d (sort_dims dims) (descends-sort_dims dims)

append_nil : (dims : List Dim) → dims ++ [] ≡ dims
append_nil [] = refl
append_nil (d ∷ dims) = ap (λ l. d ∷ l) (append_nil dims)

ones-snoc : (n : ℕ) (sizes : List ℕ) → replicate n 1 ++ 1 ∷ sizes ≡ replicate (suc n) 1 ++ sizes
ones-snoc zero sizes = refl
ones-snoc (suc n) sizes = ap (λ l. 1 ∷ l) (ones-snoc n sizes)

-- The check reads a run of ones into its accumulator.
noncanon_loop-run :
    (run dims acc : List Dim) (sizes : List ℕ)
    → noncanon_loop (replicate (length run) 1 ++ sizes) (run ++ dims) acc
      ≡ noncanon_loop sizes dims (acc ++ run)
unfolding noncanon_loop
noncanon_loop-run [] dims acc sizes = ap (λ x. noncanon_loop sizes dims x) (sym (append_nil acc))
noncanon_loop-run (d ∷ run) dims acc sizes =
    noncanon_loop-run run dims (acc ++ d ∷ []) sizes
    ∙ ap (λ x. noncanon_loop sizes dims x) (snoc_assoc acc d run)

noncanon_loop-sorted :
    (run dims : List Dim) (sizes : List ℕ)
    → noncanon_loop (replicate (length run) 1 ++ sizes) (sort_dims run ++ dims) []
      ≡ noncanon_loop sizes dims (sort_dims run)
noncanon_loop-sorted run dims sizes =
    ap (λ n. noncanon_loop (replicate n 1 ++ sizes) (sort_dims run ++ dims) [])
      (sym (length-sort_dims run))
    ∙ noncanon_loop-run (sort_dims run) dims [] sizes

noncanon_loop-reorder_run :
    (sizes : List ℕ) (dims run : List Dim)
    → noncanon_loop (replicate (length run) 1 ++ sizes) (reorder_loop sizes dims run) [] ≡ false
unfolding reorder_loop noncanon_loop
noncanon_loop-reorder_run [] dims run = noncanon_loop-sorted run dims [] ∙ descends-sort_dims run
noncanon_loop-reorder_run (s ∷ sizes) [] run =
    noncanon_loop-sorted run [] (s ∷ sizes) ∙ descends-sort_dims run
noncanon_loop-reorder_run (s ∷ sizes) (d ∷ dims) run = elim (Bool-cases (s == 1)) [
  | inl unit ↦
      let longer = noncanon_loop-reorder_run sizes dims (run ++ d ∷ []) in
      let e : s ≡ 1 = (==_iff s 1).0 unit in
      let sizes_eq : replicate (length (run ++ d ∷ [])) 1 ++ sizes
          ≡ replicate (length run) 1 ++ s ∷ sizes =
        ap (λ n. replicate n 1 ++ sizes) (length-snoc run d)
        ∙ sym (ones-snoc (length run) sizes)
        ∙ ap (λ x. replicate (length run) 1 ++ x ∷ sizes) (sym e) in
      rw unit (
        ap (λ l. noncanon_loop l (reorder_loop sizes dims (run ++ d ∷ [])) []) (sym sizes_eq)
        ∙ longer)
  | inr larger ↦
      let rest = noncanon_loop-reorder_run sizes dims [] in
      let here = noncanon_loop-sorted run (d ∷ reorder_loop sizes dims []) (s ∷ sizes) in
      rw larger (here ∙ rw (larger, descends-sort_dims run) rest)
]

-- Over one physical shape, the layout that `reorder_size_one_dynamic_dimensions` makes is one in
-- which `has_noncanon_size_one_dynamic_dimensions` finds no run of sizes 1 out of order.
pub noncanon_loop-reorder_loop :
    (sizes : List ℕ) (dims : List Dim) → noncanon_loop sizes (reorder_loop sizes dims []) [] ≡ false
noncanon_loop-reorder_loop sizes dims = noncanon_loop-reorder_run sizes dims []
