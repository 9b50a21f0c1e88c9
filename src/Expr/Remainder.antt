-- ===== src/Expr/Remainder.antt =====
-- morello/src/expr.rs, `Div` and `Rem`: what the rewriting of quotients and remainders means.
use native.Mathlib.Nat.{mod-mod_of_dvd, dvd_of_mod-eq-zero, mod-eq_of_lt, mod-lt, mod-le, div-one}
use morello.Base.{
  ℕ, and_split, ◌-◌, ◌%◌, ◌^◌, ◌<◌, ◌≤◌, ◌≡◌, refl, ap, ap₂, ◌∙◌, sym, inl, inr, false, not, ◌&&◌,
  ltb, ltb→lt, ltb-false, lt→ltb, ◌==◌, ==_iff, Bool-cases, u32, Outcome, done, >>=-eq-done,
  done_eq, assert-done, arith,
}
use morello.Expr.{
  NonAffine, NonAffineExpr, constant, leaf, floor_div, modulo, affine, no_terms, term, signed_div,
  signed_rem, from, rem_atom, rem, convert,
}
use morello.Expr.Values.{value, value_expr}
use morello.Expr.Substitution.{value_expr-word, from-value, convert-done, signed_rem-word}

-- A remainder by `r` and then by `s` is one by `s` where `s` divides `r`, and one by `r` where `r`
-- divides `s`.
rem_finer : (r s : ℕ) → r % s ≡ 0 → (y : ℕ) → y % r % s ≡ y % s
rem_finer r s h y = mod-mod_of_dvd s y (dvd_of_mod-eq-zero s h)

rem_coarser : (r s : ℕ) → 0 < r → 0 < s → s % r ≡ 0 → (y : ℕ) → y % r % s ≡ y % r
rem_coarser r s p q h y = elim (Bool-cases (ltb s r)) [
  | inl less ↦ absurd (omega (arith, mod-eq_of_lt (ltb→lt s r less)))
  | inr more ↦ mod-eq_of_lt (omega (arith, mod-lt y p, ltb-false s r more))
]

signed_rem_small : (x m : ℕ) → x < 2 ^ 31 → signed_rem x m ≡ x % m
unfolding signed_rem
signed_rem_small x m h = rw (lt→ltb x (2 ^ 31) h) refl

signed_rem_big : (x m : ℕ) → 2 ^ 31 ≤ x → signed_rem x m ≡ u32 (2 ^ 32 - (2 ^ 32 - x) % m)
unfolding signed_rem
signed_rem_big x m h = let e : ltb x (2 ^ 31) ≡ false = ground arith in rw e refl

-- The same of signed numbers.
signed_rem_twice :
    (x r s t : ℕ)
    → x < 2 ^ 32
    → ((y : ℕ) → y % r % s ≡ y % t)
    → signed_rem (signed_rem x r) s ≡ signed_rem x t
signed_rem_twice x r s t w same = elim (Bool-cases (ltb x (2 ^ 31))) [
  | inl small ↦
      let l : x < 2 ^ 31 = ltb→lt _ _ small in
      rw
        (
          signed_rem_small x r l,
          signed_rem_small x t l,
          signed_rem_small (x % r) s (omega (arith, mod-le x r)),
        )
        (same x)
  | inr big ↦
      let l : 2 ^ 31 ≤ x = ltb-false _ _ big in
      let y = 2 ^ 32 - x in
      rw (signed_rem_big x r l, signed_rem_big x t l) (negative y (omega arith))
]
  where
    negative : (y : ℕ) → y ≤ 2 ^ 31 → signed_rem (u32 (2 ^ 32 - y % r)) s ≡ u32 (2 ^ 32 - y % t)
    negative y l = elim (Bool-cases (y % r == 0)) [
      | inl none_left ↦
          let z : y % r ≡ 0 = (==_iff (y % r) 0).0 none_left in
          let e : u32 (2 ^ 32 - y % r) ≡ 0 = omega (arith, z) in
          rw (e, signed_rem_small 0 s (omega arith))
            (omega (arith, mod-le 0 s, same y, ap (λ (n : ℕ). n % s) z))
      | inr some_left ↦
          let z : 0 < y % r = ground arith in
          let e : u32 (2 ^ 32 - y % r) ≡ 2 ^ 32 - y % r = omega (arith, z) in
          let back : 2 ^ 32 - (2 ^ 32 - y % r) ≡ y % r = omega (arith, mod-le y r) in
          rw (e, signed_rem_big (2 ^ 32 - y % r) s (omega (arith, mod-le y r)), back, same y) refl
    ]

signed_div_one : (x : ℕ) → u32 x ≡ x → signed_div x 1 ≡ x
unfolding signed_div
signed_div_one x w = elim (Bool-cases (ltb x (2 ^ 31))) [
  | inl small ↦ rw small (div-one x)
  | inr big ↦ rw (big, div-one (2 ^ 32 - x)) (omega (arith, w, ltb-false _ _ big))
]

module _ {A : Type 0} where
  -- A constant is a word.
  abbrev pub IsWord : NonAffine A → Type 0
  IsWord (constant c) = c < 2 ^ 32
  IsWord _ = Unit

  -- So is every constant among the terms.
  abbrev pub AreWords : NonAffineExpr A → Type 0
  AreWords (affine (term c s no_terms) intercept) = IsWord s
  AreWords _ = Unit

module _ {A : Type 0} (env : A → ℕ) where
  rem_atom-value :
      (s : NonAffine A) (rhs : ℕ) {t : NonAffine A}
      → IsWord s
      → rem_atom s rhs ≡ done t
      → value env t ≡ signed_rem (value env s) rhs
  unfolding rem_atom value
  rem_atom-value (constant c) rhs {t} w h =
      let (m, e, h1) = >>=-eq-done (convert rhs) _ h in
      let (_, h2) = assert-done (not (m == 0)) _ h1 in
      let word : u32 c ≡ c = omega (arith, w) in
      ap (value env) (sym (done_eq h2))
      ∙ signed_rem-word c m
      ∙ ap₂ signed_rem (sym word) (sym (convert-done rhs e))
  rem_atom-value (leaf v) rhs w h =
      ap (value env) (sym (done_eq h)) ∙ ap (λ x. signed_rem x rhs) (from-value env (leaf v))
  rem_atom-value (floor_div a d) rhs w h =
      ap (value env) (sym (done_eq h)) ∙ ap (λ x. signed_rem x rhs) (from-value env (floor_div a d))
  rem_atom-value (modulo a r) rhs {t} w h =
      let (p, h1) = assert-done (not (rhs == 0)) _ h in
      let v = value_expr env a in
      let word : v < 2 ^ 32 = omega (arith, value_expr-word env a) in
      let pos : 0 < rhs = ground arith in
      elim (Bool-cases (r % rhs == 0)) [
        | inl finer ↦
            let h2 = rw finer at h1 in
            ap (value env) (sym (done_eq h2))
            ∙ sym (signed_rem_twice v r rhs rhs word (rem_finer r rhs ((==_iff _ _).0 finer)))
        | inr other ↦
            let h2 = rw other at h1 in
            let (q, h3) = assert-done (not (r == 0)) _ h2 in
            let pos' : 0 < r = ground arith in
            elim (Bool-cases (rhs % r == 0)) [
              | inl coarser ↦
                  let h4 = rw coarser at h3 in
                  ap (value env) (sym (done_eq h4))
                  ∙ sym (
                      signed_rem_twice v r rhs r word
                        (rem_coarser r rhs pos' pos ((==_iff _ _).0 coarser)))
              | inr neither ↦
                  let h4 = rw neither at h3 in
                  ap (value env) (sym (done_eq h4))
                  ∙ ap (λ x. signed_rem x rhs) (from-value env (modulo a r))
            ]
      ]

  kept_whole :
      (e : NonAffineExpr A) (rhs : ℕ) {r : NonAffineExpr A}
      → Path (Outcome (NonAffineExpr A)) (done (from (modulo e rhs))) (done r)
      → value_expr env r ≡ signed_rem (value_expr env e) rhs
  unfolding value
  kept_whole e rhs h = ap (value_expr env) (sym (done_eq h)) ∙ from-value env (modulo e rhs)

  -- Where `%` returns, the value of its result is the remainder of the value, whichever rewriting
  -- of nested remainders was applied; a constant in the only term is a word.
  pub rem-value :
      (e : NonAffineExpr A) (rhs : ℕ) {r : NonAffineExpr A}
      → AreWords e
      → rem e rhs ≡ done r
      → value_expr env r ≡ signed_rem (value_expr env e) rhs
  unfolding rem value from
  rem-value (affine no_terms i) rhs w h = kept_whole (affine no_terms i) rhs h
  rem-value (affine (term c s (term d t terms)) i) rhs w h =
      kept_whole (affine (term c s (term d t terms)) i) rhs h
  rem-value (affine (term c s no_terms) i) rhs w h = elim (Bool-cases (c == 1 && i == 0)) [
    | inr other ↦ kept_whole (affine (term c s no_terms) i) rhs (rw other at h)
    | inl single ↦
        let (one, none_left) = and_split (c == 1) (i == 0) single in
        let (t, e, h1) = >>=-eq-done (rem_atom s rhs) _ (rw single at h) in
        let whole : value_expr env (affine (term c s no_terms) i) ≡ value env s =
          rw ((==_iff c 1).0 one, (==_iff i 0).0 none_left) (from-value env s) in
        ap (value_expr env) (sym (done_eq h1))
        ∙ from-value env t
        ∙ rem_atom-value s rhs w e
        ∙ ap (λ x. signed_rem x rhs) (sym whole)
  ]
