-- ===== src/Expr/Values.antt =====
-- The value of an index expression at given atoms, and what the operations of
-- morello/src/expr.rs do to it.
use native.Mathlib.Nat.{div-add-mod, add-mul-mod_self_left, mul_assoc, mul_comm, add-mul}
use morello.Base.{
  ℕ, ◌+◌, ◌*◌, ◌/◌, ◌^◌, ◌≡◌, refl, ap, ap₂, ◌∙◌, sym, inl, inr, Bool, true, ◌&&◌, ◌==◌, ==_iff,
  Bool-cases, u32, and_split, arith,
}
use morello.Expr.{
  NonAffine, NonAffineExpr, Terms, constant, leaf, floor_div, modulo, affine, no_terms, term,
  signed_div, signed_rem, scale, mul, same, same_expr, same_terms, add_term, add_terms, add,
}

-- The meaning of an expression, as a residue modulo 2 ^ 32.
module _ {A : Type 0} (env : A → ℕ) where
  unfoldable mutual
    pub value : NonAffine A → ℕ
    value (constant c) = u32 c
    value (leaf v) = u32 (env v)
    value (floor_div e d) = signed_div (value_expr e) d
    value (modulo e m) = signed_rem (value_expr e) m

    pub value_expr : NonAffineExpr A → ℕ
    value_expr (affine terms intercept) = u32 (value_terms terms + intercept)

    pub value_terms : Terms A → ℕ
    value_terms no_terms = 0
    value_terms (term c s terms) = u32 (c * value s + value_terms terms)

-- Words may be wrapped early.
pub u32-add : (a b : ℕ) → u32 (u32 a + b) ≡ u32 (a + b)
u32-add a b = omega arith

pub u32-mul_left : (a b : ℕ) → u32 (u32 a * b) ≡ u32 (a * b)
u32-mul_left a b =
    let parts = div-add-mod a (2 ^ 32) in
    let split : a * b ≡ u32 a * b + 2 ^ 32 * (a / 2 ^ 32 * b) =
      ap (λ (n : ℕ). n * b) (sym parts) ∙ omega (arith, mul_assoc (2 ^ 32) (a / 2 ^ 32) b) in
    sym (ap u32 split ∙ add-mul-mod_self_left (u32 a * b) (2 ^ 32) (a / 2 ^ 32 * b))

value_terms-word :
    {A : Type 0} (env : A → ℕ) (terms : Terms A)
    → u32 (value_terms env terms) ≡ value_terms env terms
unfolding value
value_terms-word env no_terms = refl
value_terms-word env (term c s terms) = omega arith

module _ {A : Type 0} (env : A → ℕ) where
  scale-value :
      (terms : Terms A) (k : ℕ) → value_terms env (scale terms k) ≡ u32 (value_terms env terms * k)
  unfolding scale value
  scale-value no_terms k = omega arith
  scale-value (term c s terms) k =
      let swapped : c * k * value env s ≡ c * value env s * k =
        mul_assoc c k (value env s)
        ∙ ap (λ (n : ℕ). c * n) (mul_comm k (value env s))
        ∙ sym (mul_assoc c (value env s) k) in
      let spread : (c * value env s + value_terms env terms) * k
          ≡ c * value env s * k + value_terms env terms * k =
        add-mul (c * value env s) (value_terms env terms) k in
      omega (
        arith,
        u32-mul_left (c * k) (value env s),
        u32-mul_left (c * value env s + value_terms env terms) k,
        scale-value terms k,
        swapped,
        spread,
      )

  -- The value of a multiple is the multiple of the value.
  pub mul-value :
      (e : NonAffineExpr A) (k : ℕ) → value_expr env (mul e k) ≡ u32 (value_expr env e * k)
  unfolding mul value
  mul-value (affine terms i) k = omega (
    arith,
    scale-value terms k,
    u32-mul_left (value_terms env terms + i) k,
    add-mul (value_terms env terms) i k,
  )

module _ {A : Type 0} (eq : A → A → Bool) (sound : (a b : A) → eq a b ≡ true → a ≡ b) where
  -- The derived equality answers `true` of equal expressions only.
  mutual
    unfolding same

    pub same_sound : (s t : NonAffine A) → same eq s t ≡ true → s ≡ t
    same_sound (constant a) (constant b) h = ap constant ((==_iff a b).0 h)
    same_sound (constant a) (leaf b) h = cc
    same_sound (constant a) (floor_div b n) h = cc
    same_sound (constant a) (modulo b n) h = cc
    same_sound (leaf a) (leaf b) h = ap leaf (sound a b h)
    same_sound (leaf a) (constant b) h = cc
    same_sound (leaf a) (floor_div b n) h = cc
    same_sound (leaf a) (modulo b n) h = cc
    same_sound (floor_div a m) (floor_div b n) h =
        let (p, q) = and_split (same_expr eq a b) (m == n) h in
        ap₂ floor_div (same_expr_sound a b p) ((==_iff m n).0 q)
    same_sound (floor_div a m) (constant b) h = cc
    same_sound (floor_div a m) (leaf b) h = cc
    same_sound (floor_div a m) (modulo b n) h = cc
    same_sound (modulo a m) (modulo b n) h =
        let (p, q) = and_split (same_expr eq a b) (m == n) h in
        ap₂ modulo (same_expr_sound a b p) ((==_iff m n).0 q)
    same_sound (modulo a m) (constant b) h = cc
    same_sound (modulo a m) (leaf b) h = cc
    same_sound (modulo a m) (floor_div b n) h = cc

    same_expr_sound : (e f : NonAffineExpr A) → same_expr eq e f ≡ true → e ≡ f
    same_expr_sound (affine s i) (affine t j) h =
        let (p, q) = and_split (same_terms eq s t) (i == j) h in
        ap₂ affine (same_terms_sound s t p) ((==_iff i j).0 q)

    same_terms_sound : (s t : Terms A) → same_terms eq s t ≡ true → s ≡ t
    same_terms_sound no_terms no_terms h = refl
    same_terms_sound no_terms (term b t ys) h = cc
    same_terms_sound (term a s xs) no_terms h = cc
    same_terms_sound (term a s xs) (term b t ys) h =
        let (p, q) = and_split (a == b && same eq s t) (same_terms eq xs ys) h in
        let (p1, p2) = and_split (a == b) (same eq s t) p in
        rw ((==_iff a b).0 p1, same_sound s t p2, same_terms_sound xs ys q) refl

  module _ (env : A → ℕ) where
    add_term-value :
        (terms : Terms A) (c : ℕ) (s : NonAffine A)
        → value_terms env (add_term eq terms c s) ≡ u32 (c * value env s + value_terms env terms)
    unfolding add_term value
    add_term-value no_terms c s = refl
    add_term-value (term c2 s2 terms) c s = elim (Bool-cases (same eq s s2)) [
      | inl hit ↦
          let e : value env s ≡ value env s2 = ap (value env) (same_sound s s2 hit) in
          rw hit (omega (arith, ap (λ (v : ℕ). c * v) e, u32-mul_left (c2 + c) (value env s2)))
      | inr miss ↦ rw (miss, add_term-value terms c s) (omega arith)
    ]

    add_terms-value :
        (terms rhs : Terms A)
        → value_terms env (add_terms eq terms rhs)
          ≡ u32 (value_terms env terms + value_terms env rhs)
    unfolding add_terms value
    add_terms-value terms no_terms = omega (arith, value_terms-word env terms)
    add_terms-value terms (term c s rhs) =
        omega (arith, add_terms-value (add_term eq terms c s) rhs, add_term-value terms c s)

    -- The value of a sum is the sum of the values.
    pub add-value :
        (e f : NonAffineExpr A)
        → value_expr env (add eq e f) ≡ u32 (value_expr env e + value_expr env f)
    unfolding add value
    add-value (affine s i) (affine t j) = omega (arith, add_terms-value s t)
