-- ===== src/Expr/Tests.antt =====
-- Runs of the functions of morello/src/expr.rs, and the theorems at concrete expressions.
use morello.Base.{ℕ, ◌+◌, ◌≡◌, refl, true, some, ◌==◌, ==_iff, done}
use morello.Expr.{
  NonAffineExpr, leaf, floor_div, modulo, affine, no_terms, term, signed_div, signed_rem,
  constant_expr, from, scale, mul, rem_atom, rem, add_term, add_terms, add, bounds, as_constant,
  convert, map_vars, subs,
}
use morello.Expr.Values.{value, value_expr}
use morello.Expr.Reduced.{IsReduced, IsReducedAtom, no_bounds}
use morello.Expr.Substitution.{map_vars-value}
use morello.Expr.Remainder.{rem-value}

eq_sound : (a b : ℕ) → (a == b) ≡ true → a ≡ b
eq_sound a b h = (==_iff a b).0 h

-- x / 16 for 16, as in the source's own test.
subs_run :
    subs ◌==◌ no_bounds 0 (constant_expr 16) (from (floor_div (from (leaf 0)) 16))
    ≡ done (constant_expr 1)
unfolding subs map_vars as_constant bounds convert signed_div add add_terms add_term mul scale from
    constant_expr
subs_run = refl

-- 2 (x % 4) + 1, and 3 y + 2 for x.
abbrev original : NonAffineExpr ℕ
original = affine (term 2 (modulo (affine (term 1 (leaf 0) no_terms) 0) 4) no_terms) 1

abbrev image : ℕ → NonAffineExpr ℕ
image a = affine (term 3 (leaf (a + 1)) no_terms) 2

abbrev substituted : NonAffineExpr ℕ
substituted = affine (term 2 (modulo (affine (term 3 (leaf 1) no_terms) 2) 4) no_terms) 1

image-IsReduced : (a : ℕ) → IsReduced (image a)
unfolding IsReducedAtom
image-IsReduced a = (tt, tt)

map_vars_run : map_vars ◌==◌ no_bounds image original ≡ done substituted
unfolding map_vars as_constant bounds convert add add_terms add_term mul scale from
map_vars_run = refl

map_vars-value_example :
    (value_expr (λ (v : ℕ). v + 6) substituted
      ≡ value_expr (λ a. value_expr (λ (v : ℕ). v + 6) (image a)) original)
    × IsReduced substituted
map_vars-value_example =
    map_vars-value ◌==◌ eq_sound image image-IsReduced (λ (v : ℕ). v + 6) original map_vars_run

-- (x % 8) % 2.
abbrev last_of : ℕ → NonAffineExpr ℕ
last_of m = affine (term 1 (modulo (affine (term 1 (leaf 0) no_terms) 0) m) no_terms) 0

rem_run : rem (last_of 8) 2 ≡ done (last_of 2)
unfolding rem rem_atom from
rem_run = refl

rem-value_example :
    value_expr (λ (v : ℕ). 13) (last_of 2) ≡ signed_rem (value_expr (λ (v : ℕ). 13) (last_of 8)) 2
rem-value_example = rem-value (λ (v : ℕ). 13) (last_of 8) 2 tt rem_run

-- With atoms between 0 and 7, (x + y) / 8 folds to 0, though 7 + 7 makes 1: the bounds of a sum are
-- taken to be those of its largest term.
abbrev sum_of_two : NonAffineExpr ℕ
sum_of_two = affine (term 1 (leaf 0) (term 1 (leaf 1) no_terms)) 0

folded_run : as_constant (λ (v : ℕ). some (0, 7)) (from (floor_div sum_of_two 8)) ≡ done (some 0)
unfolding as_constant bounds convert from
folded_run = refl

unfolded_run : value_expr (λ (v : ℕ). 7) (from (floor_div sum_of_two 8)) ≡ 1
unfolding value signed_div from
unfolded_run = refl
