-- ===== src/Expr/Substitution.antt =====
-- morello/src/expr.rs, `map_vars`: substitution computes the value at the substituted atoms.
use native.Mathlib.Nat.{mod-le, div-le_self, mul_comm}
use morello.Base.{
  ℕ, ◌+◌, ◌*◌, ◌^◌, ◌≡◌, refl, ap, ap₂, ◌∙◌, sym, inl, inr, Bool, true, not, ltb, ltb→lt, ◌==◌,
  ==_iff, Bool-cases, if◌then◌else◌, u32, Option, none, some, Outcome, done, ◌>>=◌, ◌>>◌,
  >>=-eq-done, done_eq, assert, assert-done, arith,
}
use morello.Expr.{
  NonAffine, NonAffineExpr, Terms, constant, leaf, floor_div, modulo, affine, no_terms, term,
  signed_div, signed_rem, constant_expr, from, mul, add, as_constant, convert, is_zero,
  map_vars_atom, map_vars, map_vars_loop,
}
use morello.Expr.Values.{value, value_expr, value_terms, mul-value, add-value}
use morello.Expr.Reduced.{
  HasTerms, IsReducedAtom, IsReduced, no_bounds, as_constant-value, as_constant-HasTerms,
  mul-IsReduced, add-IsReduced,
}

-- Values are words.
pub signed_div-word : (x d : ℕ) → u32 (signed_div x d) ≡ signed_div x d
unfolding signed_div
signed_div-word x d = elim (Bool-cases (ltb x (2 ^ 31))) [
  | inl small ↦ rw small (omega (arith, ltb→lt _ _ small, div-le_self x d))
  | inr big ↦ rw big (omega arith)
]

pub signed_rem-word : (x m : ℕ) → u32 (signed_rem x m) ≡ signed_rem x m
unfolding signed_rem
signed_rem-word x m = elim (Bool-cases (ltb x (2 ^ 31))) [
  | inl small ↦ rw small (omega (arith, ltb→lt _ _ small, mod-le x m))
  | inr big ↦ rw big (omega arith)
]

pub value-word : {A : Type 0} (env : A → ℕ) (s : NonAffine A) → u32 (value env s) ≡ value env s
unfolding value
value-word env (constant c) = omega arith
value-word env (leaf v) = omega arith
value-word env (floor_div e d) = signed_div-word (value_expr env e) d
value-word env (modulo e m) = signed_rem-word (value_expr env e) m

pub value_expr-word :
    {A : Type 0} (env : A → ℕ) (e : NonAffineExpr A) → u32 (value_expr env e) ≡ value_expr env e
unfolding value
value_expr-word env (affine terms i) = omega arith

-- The value of a single term.
pub from-value :
    {A : Type 0} (env : A → ℕ) (s : NonAffine A) → value_expr env (from s) ≡ value env s
unfolding value from
from-value env s = omega (arith, value-word env s)

constant_expr-value : {A : Type 0} (env : A → ℕ) (c : ℕ) → value_expr env (constant_expr c) ≡ u32 c
unfolding value constant_expr
constant_expr-value env c = omega arith

is_zero-some : (k : Option ℕ) → is_zero k ≡ true → k ≡ some 0
is_zero-some none h = cc
is_zero-some (some c) h = ap some ((==_iff c 0).0 h)

pub convert-done : (n : ℕ) {m : ℕ} → convert n ≡ done m → n ≡ m
unfolding convert
convert-done n h = elim (Bool-cases (ltb n (2 ^ 31))) [
  | inl small ↦ let e = rw small at h in done_eq e
  | inr big ↦ let e = rw big at h in absurd (cc)
]

module _ {A B : Type 0} (eq : B → B → Bool) (sound : (a b : B) → eq a b ≡ true → a ≡ b)
    (mapper : A → NonAffineExpr B) (reduced : (a : A) → IsReduced (mapper a)) (env : B → ℕ) where
  -- An atom's value is that of its image.
  abbrev pub mapped : A → ℕ
  mapped a = value_expr env (mapper a)

  abbrev Agrees : NonAffineExpr B → ℕ → Type 0
  Agrees r v = IsReduced r × (value_expr env r ≡ v)

  -- What is folded or kept around a substituted subexpression.
  folded :
      (op : ℕ → ℕ → ℕ) (build : NonAffineExpr B → ℕ → NonAffine B) (d v : ℕ)
      (subbed : NonAffineExpr B) {r : NonAffineExpr B}
      → ((x k : ℕ) → u32 (op x k) ≡ op x k)
      → ((e : NonAffineExpr B) → IsReduced e → HasTerms e → IsReduced (from (build e d)))
      → ((e : NonAffineExpr B) → value env (build e d) ≡ op (value_expr env e) d)
      → Agrees subbed v
      → (as_constant no_bounds subbed >>= λ k. elim k [
        | none ↦ done (from (build subbed d))
        | some c ↦ convert d >>= λ m. assert (not (m == 0)) >> done (constant_expr (op c m))
      ])
        ≡ done r
      → Agrees r (op v d)
  unfolding constant_expr value IsReducedAtom
  folded op build d v subbed {r} words keeps means (red, val) h =
      let (k, e, h1) = >>=-eq-done (as_constant no_bounds subbed) _ h in by_case k e h1
    where
      by_case :
          (k : Option ℕ)
          → as_constant no_bounds subbed ≡ done k
          → Path
              (Outcome (NonAffineExpr B))
              (elim k [
                | none ↦ done (from (build subbed d))
                | some c ↦ convert d >>= λ m. assert (not (m == 0)) >> done (constant_expr (op c m))
              ])
              (done r)
          → Agrees r (op v d)
      by_case none e h =
          let t = as_constant-HasTerms subbed e in
          rw (sym (done_eq h)) (
            keeps subbed red t,
            from-value env (build subbed d) ∙ means subbed ∙ ap (λ x. op x d) val,
          )
      by_case (some c) e h =
          let (m, f, h1) = >>=-eq-done (convert d) _ h in
          let (_, h2) = assert-done (not (m == 0)) _ h1 in
          let c_eq : v ≡ c = sym val ∙ as_constant-value env subbed red e in
          rw (sym (done_eq h2)) (
            tt,
            constant_expr-value env (op c m)
                ∙ words c m
                ∙ ap₂ op (sym c_eq) (sym (convert-done d f)),
          )

  -- One round of the loop: a term that is the constant 0 is skipped, any other is added.
  added :
      (accum subbed : NonAffineExpr B) (c : ℕ) (k : Option ℕ) (v : ℕ)
      → IsReduced accum
      → Agrees subbed v
      → as_constant no_bounds subbed ≡ done k
      → Agrees
          (if is_zero k then accum else add eq accum (mul subbed c))
          (u32 (value_expr env accum + c * v))
  added accum subbed c k v p (red, val) g = elim (Bool-cases (is_zero k)) [
    | inl zero_term ↦
        let nothing : value_expr env subbed ≡ 0 =
          as_constant-value env subbed red (g ∙ ap done (is_zero-some k zero_term)) in
        let product : c * v ≡ 0 = ap (λ (n : ℕ). c * n) (sym val ∙ nothing) ∙ omega arith in
        rw zero_term (p, omega (arith, product, value_expr-word env accum))
    | inr other ↦ rw other (
      add-IsReduced eq accum (mul subbed c) p (mul-IsReduced subbed c red),
      add-value eq sound env accum (mul subbed c)
          ∙ ap (λ (n : ℕ). u32 (value_expr env accum + n)) (mul-value env subbed c)
          ∙ ap (λ (n : ℕ). u32 (value_expr env accum + u32 (n * c))) val
          ∙ omega (arith, mul_comm v c),
    )
  ]

  mutual
    unfolding map_vars value IsReducedAtom from constant_expr

    map_vars_atom-Agrees :
        (s : NonAffine A) {r : NonAffineExpr B}
        → map_vars_atom eq no_bounds mapper s ≡ done r
        → Agrees r (value mapped s)
    map_vars_atom-Agrees (constant c) h = rw (sym (done_eq h)) (tt, omega arith)
    map_vars_atom-Agrees (leaf v) h =
        rw (sym (done_eq h)) (reduced v, sym (value_expr-word env (mapper v)))
    map_vars_atom-Agrees (floor_div e d) h =
        let (subbed, f, h1) = >>=-eq-done (map_vars eq no_bounds mapper e) _ h in
        folded signed_div floor_div d (value_expr mapped e) subbed signed_div-word
          (λ e r t. ((r, t), tt)) (λ e. refl) (map_vars-Agrees e f) h1
    map_vars_atom-Agrees (modulo e m) h =
        let (subbed, f, h1) = >>=-eq-done (map_vars eq no_bounds mapper e) _ h in
        folded signed_rem modulo m (value_expr mapped e) subbed signed_rem-word
          (λ e r t. ((r, t), tt)) (λ e. refl) (map_vars-Agrees e f) h1

    map_vars-Agrees :
        (e : NonAffineExpr A) {r : NonAffineExpr B}
        → map_vars eq no_bounds mapper e ≡ done r
        → Agrees r (value_expr mapped e)
    map_vars-Agrees (affine terms i) h =
        let (red, val) = map_vars_loop-Agrees terms (affine no_terms i) tt h in
        (red, val ∙ omega arith)

    map_vars_loop-Agrees :
        (terms : Terms A) (accum : NonAffineExpr B) {r : NonAffineExpr B}
        → IsReduced accum
        → map_vars_loop eq no_bounds mapper terms accum ≡ done r
        → Agrees r (u32 (value_expr env accum + value_terms mapped terms))
    map_vars_loop-Agrees no_terms accum p h =
        rw (sym (done_eq h)) (p, omega (arith, value_expr-word env accum))
    map_vars_loop-Agrees (term c s terms) accum p h =
        let (subbed, f, h1) = >>=-eq-done (map_vars_atom eq no_bounds mapper s) _ h in
        let (k, g, h2) = >>=-eq-done (as_constant no_bounds subbed) _ h1 in
        let step = added accum subbed c k (value mapped s) p (map_vars_atom-Agrees s f) g in
        let (red, val) =
          map_vars_loop-Agrees terms (if is_zero k then accum else add eq accum (mul subbed c))
            step.0 h2 in
        (red, val ∙ omega (arith, step.1))

  -- Let the mapper give every atom an expression without foldable constants, let no atom have
  -- bounds, and let the atoms' equality be sound. Where `map_vars` returns, the value of its result,
  -- at any values of the new atoms and modulo 2 ^ 32, is the value of the original expression with
  -- each atom at the value of its image; and the result has no foldable constants.
  pub map_vars-value :
      (e : NonAffineExpr A) {r : NonAffineExpr B}
      → map_vars eq no_bounds mapper e ≡ done r
      → (value_expr env r ≡ value_expr mapped e) × IsReduced r
  map_vars-value e h = let (red, val) = map_vars-Agrees e h in (val, red)
