-- ===== src/Expr/Reduced.antt =====
-- morello/src/expr.rs: expressions without foldable constants, and what `as_constant` says of them.
use morello.Base.{
  ℕ, ◌+◌, ◌^◌, ◌<◌, ◌≡◌, ◌⊎◌, refl, ◌∙◌, sym, inl, inr, Bool, ltb, ltb→lt, ==-true, Bool-cases, u32,
  Option, none, some, done, panic, done_eq, some_eq, arith,
}
use morello.Expr.{
  NonAffine, NonAffineExpr, Terms, constant, leaf, floor_div, modulo, affine, no_terms, term, scale,
  mul, same, add_term, add_terms, add, bounds, bounds_expr, as_constant, convert,
}
use morello.Expr.Values.{value, value_expr}

module _ {A : Type 0} where
  abbrev pub HasTerms : NonAffineExpr A → Type 0
  HasTerms (affine no_terms intercept) = ⊥
  HasTerms (affine (term c s terms) intercept) = Unit

  -- No term is a constant, and no division or remainder is of a constant.
  unfoldable mutual
    pub IsReducedAtom : NonAffine A → Type 0
    IsReducedAtom (constant c) = ⊥
    IsReducedAtom (leaf v) = Unit
    IsReducedAtom (floor_div e d) = IsReduced e × HasTerms e
    IsReducedAtom (modulo e m) = IsReduced e × HasTerms e

    pub IsReduced : NonAffineExpr A → Type 0
    IsReduced (affine terms intercept) = AreReduced terms

    pub AreReduced : Terms A → Type 0
    AreReduced no_terms = Unit
    AreReduced (term c s terms) = IsReducedAtom s × AreReduced terms

  -- The atoms of the source have no bounds.
  abbrev pub no_bounds : A → Option (ℕ × ℕ)
  no_bounds v = none

  mutual
    unfolding IsReducedAtom bounds

    bounds-reduced : (s : NonAffine A) → IsReducedAtom s → bounds no_bounds s ≡ done none
    bounds-reduced (constant c) r = absurd r
    bounds-reduced (leaf v) r = refl
    bounds-reduced (floor_div e d) r = rw (bounds_expr-reduced e r.0 r.1) refl
    bounds-reduced (modulo e d) r = rw (bounds_expr-reduced e r.0 r.1) refl

    bounds_expr-reduced :
        (e : NonAffineExpr A) → IsReduced e → HasTerms e → bounds_expr no_bounds e ≡ done none
    bounds_expr-reduced (affine no_terms i) r t = absurd t
    bounds_expr-reduced (affine (term c s terms) i) r t = rw (bounds-reduced s r.0) refl

as_constant-no_terms :
    (A : Type 0) (i : ℕ)
    → ((i < 2 ^ 31) × (as_constant (no_bounds {A = A}) (affine no_terms i) ≡ done (some i)))
      ⊎ (as_constant (no_bounds {A = A}) (affine no_terms i) ≡ panic)
unfolding as_constant bounds convert
as_constant-no_terms A i = elim (Bool-cases (ltb i (2 ^ 31))) [
  | inl small ↦
      let same : u32 (0 + i) ≡ i = omega (arith, ltb→lt _ _ small) in
      inl (ltb→lt _ _ small, rw (small, same, ==-true i i refl, small) refl)
  | inr big ↦ inr (rw big refl)
]

module _ {A : Type 0} where
  -- The constant that `as_constant` finds is the value at all atoms.
  pub as_constant-value :
      (env : A → ℕ) (e : NonAffineExpr A) {k : ℕ}
      → IsReduced e
      → as_constant no_bounds e ≡ done (some k)
      → (value_expr env e ≡ k)
  unfolding as_constant bounds value
  as_constant-value env (affine (term c s terms) i) r h =
      let none_known = bounds_expr-reduced (affine (term c s terms) i) r tt in absurd (cc)
  as_constant-value env (affine no_terms i) {k} r h = elim (as_constant-no_terms A i) [
    | inl (small, found) ↦
        let e : i ≡ k = some_eq (done_eq (sym found ∙ h)) in omega (arith, e, small)
    | inr panics ↦ absurd (cc)
  ]

  -- Where it finds none, there is a term.
  pub as_constant-HasTerms :
      (e : NonAffineExpr A) → as_constant no_bounds e ≡ done none → HasTerms e
  unfolding as_constant bounds
  as_constant-HasTerms (affine (term c s terms) i) h = tt
  as_constant-HasTerms (affine no_terms i) h = elim (as_constant-no_terms A i) [
    | inl (small, found) ↦ absurd (cc)
    | inr panics ↦ absurd (cc)
  ]

  -- Multiples and sums of reduced expressions are reduced.
  scale-AreReduced : (terms : Terms A) (k : ℕ) → AreReduced terms → AreReduced (scale terms k)
  unfolding IsReducedAtom scale
  scale-AreReduced no_terms k r = tt
  scale-AreReduced (term c s terms) k r = (r.0, scale-AreReduced terms k r.1)

  pub mul-IsReduced : (e : NonAffineExpr A) (k : ℕ) → IsReduced e → IsReduced (mul e k)
  unfolding IsReducedAtom mul
  mul-IsReduced (affine terms i) k r = scale-AreReduced terms k r

  module _ (eq : A → A → Bool) where
    add_term-AreReduced :
        (terms : Terms A) (c : ℕ) (s : NonAffine A)
        → AreReduced terms
        → IsReducedAtom s
        → AreReduced (add_term eq terms c s)
    unfolding IsReducedAtom add_term
    add_term-AreReduced no_terms c s r p = (p, tt)
    add_term-AreReduced (term c2 s2 terms) c s r p = elim (Bool-cases (same eq s s2)) [
      | inl hit ↦ rw hit r
      | inr miss ↦ rw miss (r.0, add_term-AreReduced terms c s r.1 p)
    ]

    add_terms-AreReduced :
        (terms rhs : Terms A)
        → AreReduced terms
        → AreReduced rhs
        → AreReduced (add_terms eq terms rhs)
    unfolding IsReducedAtom add_terms
    add_terms-AreReduced terms no_terms r p = r
    add_terms-AreReduced terms (term c s rhs) r p =
        add_terms-AreReduced (add_term eq terms c s) rhs (add_term-AreReduced terms c s r p.0) p.1

    pub add-IsReduced : (e f : NonAffineExpr A) → IsReduced e → IsReduced f → IsReduced (add eq e f)
    unfolding IsReducedAtom add
    add-IsReduced (affine s i) (affine t j) r p = add_terms-AreReduced s t r p
