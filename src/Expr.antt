-- ===== src/Expr.antt =====
-- morello/src/expr.rs: affine expressions over atoms, floor divisions and remainders.
--
-- An i32 is kept as its residue modulo 2 ^ 32, so that arithmetic wraps as in a release build; a
-- failed `try_from`, a debug assertion and a division by zero panic. The model has the
-- instance `AffineForm<NonAffine<T>>` of the generic forms, which is the one that is used.
mod Tests
pub mod Values
pub mod Reduced
pub mod Substitution
pub mod Remainder
use morello.Base.{
  ℕ, zero, suc, ◌+◌, ◌-◌, ◌*◌, ◌/◌, ◌%◌, ◌^◌, min, max, Bool, true, false, not, ◌&&◌, Option, none,
  some, ltb, ◌==◌, if◌then◌else◌, u32, Outcome, done, panic, ◌>>=◌, ◌>>◌, assert,
}

mutual
  pub data NonAffine (A : Type 0) : Type 0 where
    constant : ℕ → NonAffine A
    leaf : A → NonAffine A
    floor_div modulo : NonAffineExpr A → ℕ → NonAffine A

  -- `AffineForm<NonAffine<T>>`: the terms and the intercept.
  pub data NonAffineExpr (A : Type 0) : Type 0 where
    affine : Terms A → ℕ → NonAffineExpr A

  -- The vector of terms, each a coefficient and what it multiplies.
  pub data Terms (A : Type 0) : Type 0 where
    no_terms : Terms A
    term : ℕ → NonAffine A → Terms A → Terms A

-- Truncated division and remainder of a signed number by a positive one.
unfoldable pub signed_div : ℕ → ℕ → ℕ
signed_div x d = if ltb x (2 ^ 31) then x / d else u32 (2 ^ 32 - (2 ^ 32 - x) / d)

unfoldable pub signed_rem : ℕ → ℕ → ℕ
signed_rem x m = if ltb x (2 ^ 31) then x % m else u32 (2 ^ 32 - (2 ^ 32 - x) % m)

-- `i32::try_from` of a u32 and `u32::try_from` of an i32, unwrapped.
unfoldable pub convert : ℕ → Outcome ℕ
convert n = if ltb n (2 ^ 31) then done n else panic

abbrev pub unwrap_or_0 : Option ℕ → ℕ
unwrap_or_0 none = 0
unwrap_or_0 (some n) = n

module _ {A : Type 0} where
  unfoldable pub constant_expr : ℕ → NonAffineExpr A
  constant_expr c = affine no_terms c

  -- `From<NonAffine<T>>`.
  unfoldable pub from : NonAffine A → NonAffineExpr A
  from s = affine (term 1 s no_terms) 0

  unfoldable pub scale : Terms A → ℕ → Terms A
  scale no_terms rhs = no_terms
  scale (term c s terms) rhs = term (u32 (c * rhs)) s (scale terms rhs)

  unfoldable pub mul : NonAffineExpr A → ℕ → NonAffineExpr A
  mul (affine terms intercept) rhs = affine (scale terms rhs) (u32 (intercept * rhs))

  unfoldable pub add_scalar : NonAffineExpr A → ℕ → NonAffineExpr A
  add_scalar (affine terms intercept) rhs = affine terms (u32 (intercept + rhs))

  unfoldable pub sub_scalar : NonAffineExpr A → ℕ → NonAffineExpr A
  sub_scalar (affine terms intercept) rhs = affine terms (u32 (intercept + 2 ^ 32 - rhs))

  unfoldable pub div : NonAffineExpr A → ℕ → Outcome (NonAffineExpr A)
  div e rhs = do assert (not (rhs == 0)); done (if rhs == 1 then e else from (floor_div e rhs))

  unfoldable pub rem_atom : NonAffine A → ℕ → Outcome (NonAffine A)
  rem_atom (constant c) rhs = do
    m ← convert rhs
    assert (not (m == 0))
    done (constant (signed_rem c m))
  rem_atom (leaf v) rhs = done (modulo (from (leaf v)) rhs)
  rem_atom (floor_div a d) rhs = done (modulo (from (floor_div a d)) rhs)
  rem_atom (modulo a r) rhs = do
    assert (not (rhs == 0))
    if r % rhs == 0 then done (modulo a rhs) else (do
      assert (not (r == 0))
      done (if rhs % r == 0 then modulo a r else modulo (from (modulo a r)) rhs))

  unfoldable pub rem : NonAffineExpr A → ℕ → Outcome (NonAffineExpr A)
  rem (affine (term c s no_terms) intercept) rhs =
      if c == 1 && intercept == 0
      then (rem_atom s rhs >>= λ t. done (from t))
      else done (from (modulo (affine (term c s no_terms) intercept) rhs))
  rem (affine no_terms intercept) rhs = done (from (modulo (affine no_terms intercept) rhs))
  rem (affine (term c s (term d t terms)) intercept) rhs =
      done (from (modulo (affine (term c s (term d t terms)) intercept) rhs))

  -- The derived equality, by that of the atoms.
  module _ (eq : A → A → Bool) where
    unfoldable mutual
      pub same : NonAffine A → NonAffine A → Bool
      same (constant a) (constant b) = a == b
      same (leaf a) (leaf b) = eq a b
      same (floor_div a m) (floor_div b n) = same_expr a b && m == n
      same (modulo a m) (modulo b n) = same_expr a b && m == n
      same _ _ = false

      pub same_expr : NonAffineExpr A → NonAffineExpr A → Bool
      same_expr (affine s i) (affine t j) = same_terms s t && i == j

      pub same_terms : Terms A → Terms A → Bool
      same_terms no_terms no_terms = true
      same_terms (term a s xs) (term b t ys) = a == b && same s t && same_terms xs ys
      same_terms _ _ = false

    -- The `find` of an equal term, to which the coefficient is added, or a push.
    unfoldable pub add_term : Terms A → ℕ → NonAffine A → Terms A
    add_term no_terms c s = term c s no_terms
    add_term (term c2 s2 terms) c s =
        let rest = add_term terms c s in
        if same s s2 then term (u32 (c2 + c)) s2 terms else term c2 s2 rest

    unfoldable pub add_terms : Terms A → Terms A → Terms A
    add_terms terms no_terms = terms
    add_terms terms (term c s rhs) = add_terms (add_term terms c s) rhs

    unfoldable pub add : NonAffineExpr A → NonAffineExpr A → NonAffineExpr A
    add (affine terms i) (affine rhs j) = affine (add_terms terms rhs) (u32 (i + j))

  -- `Bounds`, by the bounds of the atoms; `minimum` and `maximum` are the loop's variables.
  module _ (atom_bounds : A → Option (ℕ × ℕ)) where
    unfoldable mutual
      pub bounds : NonAffine A → Outcome (Option (ℕ × ℕ))
      bounds (constant v) = convert v >>= λ v. done (some (v, v))
      bounds (leaf v) = done (atom_bounds v)
      bounds (floor_div v d) = do
        b ← bounds_expr v
        elim b [
          | none ↦ done none
          | some (lo, hi) ↦ if d == 0 then panic else done (some (lo / d, hi / d))
        ]
      bounds (modulo v m) = do
        b ← bounds_expr v
        elim b [ none ↦ done none | some (lo, hi) ↦ done (some (0, min hi (u32 (m + 2 ^ 32 - 1)))) ]

      pub bounds_expr : NonAffineExpr A → Outcome (Option (ℕ × ℕ))
      bounds_expr (affine terms intercept) = do
        b ← bounds_loop terms 0 none
        elim b [
          | none ↦ done none
          | some (lo, hi) ↦ do c ← convert intercept; done (some (u32 (lo + c), u32 (hi + c)))
        ]

      pub bounds_loop : Terms A → ℕ → Option ℕ → Outcome (Option (ℕ × ℕ))
      bounds_loop no_terms minimum maximum = done (some (minimum, unwrap_or_0 maximum))
      bounds_loop (term c s terms) minimum maximum = do
        b ← bounds s
        elim b [
          | none ↦ done none
          | some (term_min, term_max) ↦ do
            k ← convert c
            bounds_loop terms (min minimum (u32 (k * term_min)))
                (some (max (unwrap_or_0 maximum) (u32 (k * term_max))))
        ]

    unfoldable pub as_constant : NonAffineExpr A → Outcome (Option ℕ)
    as_constant e = do
      b ← bounds_expr e
      elim b [
        | none ↦ done none
        | some (lo, hi) ↦ if lo == hi then (convert lo >>= λ c. done (some c)) else done none
      ]

-- Whether a subexpression is the constant 0.
abbrev pub is_zero : Option ℕ → Bool
is_zero none = false
is_zero (some c) = c == 0

-- `map_vars`: the atoms' images, flattened and with constants folded.
module _ {A B : Type 0} (eq : B → B → Bool) (atom_bounds : B → Option (ℕ × ℕ))
    (mapper : A → NonAffineExpr B) where
  unfoldable mutual
    pub map_vars_atom : NonAffine A → Outcome (NonAffineExpr B)
    map_vars_atom (constant c) = done (constant_expr c)
    map_vars_atom (leaf v) = done (mapper v)
    map_vars_atom (floor_div v d) = do
      subbed ← map_vars v
      k ← as_constant atom_bounds subbed
      elim k [
        | none ↦ done (from (floor_div subbed d))
        | some c ↦ do m ← convert d; assert (not (m == 0)); done (constant_expr (signed_div c m))
      ]
    map_vars_atom (modulo v m) = do
      subbed ← map_vars v
      k ← as_constant atom_bounds subbed
      elim k [
        | none ↦ done (from (modulo subbed m))
        | some c ↦ do n ← convert m; assert (not (n == 0)); done (constant_expr (signed_rem c n))
      ]

    pub map_vars : NonAffineExpr A → Outcome (NonAffineExpr B)
    map_vars (affine terms intercept) = map_vars_loop terms (affine no_terms intercept)

    pub map_vars_loop : Terms A → NonAffineExpr B → Outcome (NonAffineExpr B)
    map_vars_loop no_terms accum = done accum
    map_vars_loop (term c s terms) accum = do
      subbed ← map_vars_atom s
      k ← as_constant atom_bounds subbed
      map_vars_loop terms (if is_zero k then accum else add eq accum (mul subbed c))

-- `subs`: the mapper that replaces one atom.
unfoldable pub subs :
    {A : Type 0}
    → (A → A → Bool)
    → (A → Option (ℕ × ℕ))
    → A
    → NonAffineExpr A
    → NonAffineExpr A
    → Outcome (NonAffineExpr A)
subs eq atom_bounds atom replacement e =
    map_vars eq atom_bounds (λ a. if eq atom a then replacement else from (leaf a)) e
