-- ===== src/Scheduling/Sizes.antt =====
-- morello/src/spec.rs: the sizes that `dim_range` tries, and the lists that are made of them.
use morello.Base.{
  ℕ, zero, suc, ◌+◌, ◌-◌, ◌^◌, ◌<◌, ◌≤◌, ◌≡◌, refl, ap, subst, Bool, true, false, Option, none,
  some, List, [], ◌∷◌, ◌++◌, map, length, set, get_elem?, at, range_from, All, All-append, ltb,
  ltb→lt, Bool-cases, inl, inr, Outcome, done, done_eq, >>=-eq-done, arith,
}
use morello.Spec.Actions.{powers_below, range_start, dim_range, dim_range-powers_from}
use morello.Scheduling.Actions.{flat_map, kept, smaller_in}

pub powers_below-below :
    (left power dim : ℕ) {ps : List ℕ}
    → powers_below left power dim ≡ done ps
    → All (λ n. n < dim) ps
unfolding powers_below
powers_below-below zero power dim h = cc
powers_below-below (suc left) power dim {ps} h = elim (Bool-cases (ltb (2 ^ power) dim)) [
  | inl more ↦
      let (qs, e, f) =
        >>=-eq-done (powers_below left (suc power) dim) (λ (qs : List ℕ). done (2 ^ power ∷ qs))
          (rw more at h) in
      subst (All (λ n. n < dim)) (done_eq f)
        (ltb→lt _ _ more, powers_below-below left (suc power) dim e)
  | inr over ↦
      let e : Path (Outcome (List ℕ)) (done []) (done ps) = rw over at h in
      subst (All (λ n. n < dim)) (done_eq e) tt
]

pub All-weaken :
    {A : Type 0} (P Q : A → Type 0) (xs : List A) → ((x : A) → P x → Q x) → All P xs → All Q xs
All-weaken P Q [] f h = tt
All-weaken P Q (x ∷ xs) f (p, h) = (f x p, All-weaken P Q xs f h)

-- The sizes of a dimension: all below it, or also the dimension itself.
pub dim_range-below :
    (dim : ℕ) (depth : Option ℕ) {ps : List ℕ}
    → dim_range dim false depth ≡ done ps
    → All (λ n. n < dim) ps
unfolding dim_range
dim_range-below dim depth h =
    let (start, _, h1) = >>=-eq-done (range_start dim depth) _ h in
    let (powers, e, h2) = >>=-eq-done (powers_below (32 - start) start dim) _ h1 in
    subst (All (λ n. n < dim)) (done_eq h2)
      (All-append (λ (n : ℕ). n < dim) powers [] (powers_below-below (32 - start) start dim e) tt)

pub dim_range-at_most :
    (dim : ℕ) (depth : Option ℕ) {ps : List ℕ}
    → dim_range dim true depth ≡ done ps
    → All (λ n. n ≤ dim) ps
unfolding dim_range
dim_range-at_most dim depth h =
    let (start, _, h1) = >>=-eq-done (range_start dim depth) _ h in
    let (powers, e, h2) = >>=-eq-done (powers_below (32 - start) start dim) _ h1 in
    subst (All (λ n. n ≤ dim)) (done_eq h2) (
      All-append (λ (n : ℕ). n ≤ dim) powers (dim ∷ [])
        (All-weaken _ _ powers (λ n lt. omega arith) (powers_below-below (32 - start) start dim e))
        (omega arith, tt))

pub flat_map-All :
    {A B : Type 0} (P : A → Type 0) (Q : B → Type 0) (f : A → Outcome (List B)) (xs : List A)
    {ys : List B}
    → ((x : A) (zs : List B) → P x → f x ≡ done zs → All Q zs)
    → All P xs
    → flat_map f xs ≡ done ys
    → All Q ys
flat_map-All P Q f [] g p h = subst (All Q) (done_eq h) tt
flat_map-All P Q f (x ∷ xs) g (p, ps) h =
    let (zs, e, h1) = >>=-eq-done (f x) _ h in
    let (rest, k, h2) = >>=-eq-done (flat_map f xs) _ h1 in
    subst (All Q) (done_eq h2) (All-append Q zs rest (g x zs p e) (flat_map-All P Q f xs g ps k))

pub kept-All :
    {A : Type 0} (P : A → Type 0) (test : A → Bool) (xs : List A)
    → All P xs
    → All (λ x. P x × (test x ≡ true)) (kept test xs)
kept-All P test [] h = tt
kept-All P test (x ∷ xs) (p, h) = elim (Bool-cases (test x)) [
  | inl fits ↦ rw fits ((p, fits), kept-All P test xs h)
  | inr fails ↦ rw fails (kept-All P test xs h)
]

pub map-All :
    {A B : Type 0} (f : A → B) (P : B → Type 0) (xs : List A)
    → All (λ x. P (f x)) xs
    → All P (map f xs)
map-All f P [] h = tt
map-All f P (x ∷ xs) (p, h) = (p, map-All f P xs h)

pub at-done : (xs : List ℕ) (i : ℕ) {x : ℕ} → at xs i ≡ done x → get_elem? xs i ≡ some x
at-done [] i h = cc
at-done (y ∷ xs) zero h = ap some (done_eq h)
at-done (y ∷ xs) (suc i) h = at-done xs i h

pub All-unit : {A : Type 0} (xs : List A) → All (λ _. Unit {0}) xs
All-unit [] = tt
All-unit (x ∷ xs) = (tt, All-unit xs)

pub dim_range-done :
    (dim : ℕ) (include_end : Bool)
    → dim ≤ 2 ^ 31
    → (sizes : List ℕ) × (dim_range dim include_end none ≡ done sizes)
dim_range-done dim include_end h =
    let (n, e, _, _) = dim_range-powers_from dim include_end h in (_, e)

pub flat_map-done :
    {A B : Type 0} (P : A → Type 0) (f : A → Outcome (List B)) (xs : List A)
    → ((x : A) → P x → (zs : List B) × (f x ≡ done zs))
    → All P xs
    → (ys : List B) × (flat_map f xs ≡ done ys)
flat_map-done P f [] g h = ([], refl)
flat_map-done P f (x ∷ xs) g (p, h) =
    let (zs, e) = g x p in let (ys, k) = flat_map-done P f xs g h in (zs ++ ys, rw (e, k) refl)

pub smaller_in-done :
    (shape : List ℕ) (dim : ℕ)
    → dim < length shape
    → All (λ d. d ≤ 2 ^ 31) shape
    → (zs : List (List ℕ)) × (smaller_in shape none dim ≡ done zs)
unfolding smaller_in
smaller_in-done shape dim lt h =
    let (size, e, le) = element shape dim lt h in
    let (sizes, k) = dim_range-done size false le in
    (map (λ (d : ℕ). set shape dim d) sizes, rw (e, k) refl)
  where
    element :
        (xs : List ℕ) (i : ℕ)
        → i < length xs
        → All (λ d. d ≤ 2 ^ 31) xs
        → (x : ℕ) × (at xs i ≡ done x) × (x ≤ 2 ^ 31)
    element [] i lt h = absurd (omega (arith, lt))
    element (x ∷ xs) zero lt (le, h) = (x, refl, le)
    element (x ∷ xs) (suc i) lt (le, h) = element xs i (omega (arith, lt)) h

pub range_from-below : (hi lo n : ℕ) → lo + n ≤ hi → All (λ i. i < hi) (range_from lo n)
range_from-below hi lo zero h = tt
range_from-below hi lo (suc n) h = (omega arith, range_from-below hi (suc lo) n (omega arith))
