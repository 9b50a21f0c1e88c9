-- ===== src/Grid/Maps.antt =====
-- morello/src/grid/: what the inverses of composed and paired maps yield.
use morello.Base.{◌≡◌, refl, ap, ap₂, ◌∙◌, Option, none, some, List, [], ◌∷◌, ◌++◌, All, All-append}
use morello.Grid.{
  SurMap, tuple_map, pair_all, cartesian_product, ComposeDomainIter, active, finished, compose_iter,
  next_loop,
}

-- What an iterator over a composition has still to yield.
abbrev pub yields : {D B : Type 0} → SurMap D B → List B → List D
yields a [] = []
yields a (b ∷ inner) = a.apply_inverse b ++ yields a inner

abbrev pub remaining : {D B : Type 0} → SurMap D B → ComposeDomainIter D B → List D
remaining a (active inner outer) = outer ++ yields a inner
remaining a finished = []

-- A call of `next` takes the first of the values `before` it, or finds none and is finished.
abbrev pub IsNext : {D B : Type 0} → SurMap D B → List D → Option D × ComposeDomainIter D B → Type 0
IsNext a before (none, it) = (it ≡ finished) × (before ≡ [])
IsNext a before (some d, it) = before ≡ d ∷ remaining a it

-- `next` yields the first of the values that remain and keeps the others; it yields none exactly
-- when none remains, and is finished then.
pub next_loop-IsNext :
    {D B : Type 0} (a : SurMap D B) (inner : List B) (outer : List D)
    → IsNext a (remaining a (active inner outer)) (next_loop a inner outer)
unfolding next_loop
next_loop-IsNext a [] [] = (refl, refl)
next_loop-IsNext a [] (d ∷ outer) = refl
next_loop-IsNext a (b ∷ inner) [] = next_loop-IsNext a inner (a.apply_inverse b)
next_loop-IsNext a (b ∷ inner) (d ∷ outer) = refl

-- An inverse yields only values that map to the coordinate.
abbrev pub IsInverse : {D C : Type 0} → SurMap D C → Type 0
IsInverse {D} {C} m = (c : C) → All (λ d. m.apply d ≡ c) (m.apply_inverse c)

module _ {D B C : Type 0} (a : SurMap D B) (b : SurMap B C) (a_inverse : IsInverse a) where
  within :
      (c : C) (x : B) (ds : List D)
      → b.apply x ≡ c
      → All (λ d. a.apply d ≡ x) ds
      → All (λ d. b.apply (a.apply d) ≡ c) ds
  within c x [] e h = tt
  within c x (d ∷ ds) e h = (ap b.apply h.0 ∙ e, within c x ds e h.1)

  yields-All :
      (c : C) (inner : List B)
      → All (λ x. b.apply x ≡ c) inner
      → All (λ d. b.apply (a.apply d) ≡ c) (yields a inner)
  yields-All c [] h = tt
  yields-All c (x ∷ inner) h =
      All-append (λ d. b.apply (a.apply d) ≡ c) (a.apply_inverse x) (yields a inner)
        (within c x (a.apply_inverse x) h.0 (a_inverse x)) (yields-All c inner h.1)

  initial-All :
      (c : C) (inner : List B) {it : ComposeDomainIter D B}
      → All (λ x. b.apply x ≡ c) inner
      → elim inner [ [] ↦ finished | x ∷ rest ↦ active rest (a.apply_inverse x) ] ≡ it
      → All (λ d. b.apply (a.apply d) ≡ c) (remaining a it)
  initial-All c [] h e = rw (← e) tt
  initial-All c (x ∷ inner) h e = rw (← e) (yields-All c (x ∷ inner) h)

-- Everything that the inverse of a composition yields maps to the coordinate under both maps.
pub compose_iter-All :
    {D B C : Type 0} (a : SurMap D B) (b : SurMap B C)
    → IsInverse a
    → IsInverse b
    → (c : C) → All (λ d. b.apply (a.apply d) ≡ c) (remaining a (compose_iter a b c))
unfolding compose_iter
compose_iter-All a b a_inverse b_inverse c =
    initial-All a b a_inverse c (b.apply_inverse c) (b_inverse c) refl

pair_all-All :
    {A B C₁ C₂ : Type 0} (f : A → C₁) (g : B → C₂) (c : C₁ × C₂) (x : A) (ys : List B)
    → f x ≡ c.0
    → All (λ y. g y ≡ c.1) ys
    → All (λ t. (f t.0, g t.1) ≡ c) (pair_all x ys)
unfolding pair_all
pair_all-All f g c x [] e h = tt
pair_all-All f g c x (y ∷ ys) e h = (ap₂ (λ u v. (u, v)) e h.0, pair_all-All f g c x ys e h.1)

cartesian_product-All :
    {A B C₁ C₂ : Type 0} (f : A → C₁) (g : B → C₂) (c : C₁ × C₂) (xs : List A) (ys : List B)
    → All (λ x. f x ≡ c.0) xs
    → All (λ y. g y ≡ c.1) ys
    → All (λ t. (f t.0, g t.1) ≡ c) (cartesian_product xs ys)
unfolding cartesian_product
cartesian_product-All f g c [] ys h k = tt
cartesian_product-All f g c (x ∷ xs) ys h k =
    All-append (λ t. (f t.0, g t.1) ≡ c) (pair_all x ys) (cartesian_product xs ys)
      (pair_all-All f g c x ys h.0 k) (cartesian_product-All f g c xs ys h.1 k)

-- A pair of maps whose inverses yield only preimages is such a map.
pub tuple_map-IsInverse :
    {D₁ C₁ D₂ C₂ : Type 0} (m : SurMap D₁ C₁) (n : SurMap D₂ C₂)
    → IsInverse m
    → IsInverse n
    → IsInverse (tuple_map m n)
unfolding tuple_map
tuple_map-IsInverse m n p q c =
    cartesian_product-All m.apply n.apply c (m.apply_inverse c.0) (n.apply_inverse c.1) (p c.0)
      (q c.1)
