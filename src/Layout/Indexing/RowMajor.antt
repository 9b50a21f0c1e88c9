-- ===== src/Layout/Indexing/RowMajor.antt =====
-- morello/src/layout.rs, `buffer_indexing_expr`: the offset in a row-major buffer.
use native.Mathlib.Nat.{div_self}
use morello.Base.{
  ℕ, zero, suc, ◌+◌, ◌*◌, ◌^◌, ◌<◌, ◌≡◌, refl, ap, ap₂, ◌∙◌, sym, max, true, List, [], ◌∷◌, ◌++◌,
  map, length, length-snoc, snoc_assoc, set, set-middle, get_elem?-middle, range_from, All, all_of,
  le→leb, lt→ltb, ◌==◌, ==_iff, ==-true, ==-false, u32, done, at, arith,
}
use morello.Expr.{constant_expr, from, leaf, mul, add, convert}
use morello.Expr.Values.{value, value_expr, mul-value, add-value}
use morello.Expr.Substitution.{from-value}
use morello.Layout.{dynamic, Dim, expanded, row_major_dims}
use morello.Layout.Indexing.{PointExpr, logical_rank, dim_term, indexing_loop, buffer_indexing_expr}

-- Horner's rule over the sizes from dimension `i` on: the offset of the point `env`, from that of
-- the dimensions before.
abbrev pub row_major_offset : (ℕ → ℕ) → ℕ → List ℕ → ℕ → ℕ
row_major_offset env i [] acc = acc
row_major_offset env i (s ∷ shape) acc = row_major_offset env (suc i) shape (u32 (acc * s + env i))

abbrev pub ones : List ℕ → List ℕ
ones xs = map (λ d. 1) xs

-- A size other than zero that an i32 holds.
abbrev pub IsIndexable : ℕ → Type 0
IsIndexable s = (0 < s) × (s < 2 ^ 31)

eq_sound : (a b : ℕ) → (a == b) ≡ true → a ≡ b
eq_sound a b h = (==_iff a b).0 h

at_middle : (pre : List ℕ) (x : ℕ) (rest : List ℕ) → at (pre ++ x ∷ rest) (length pre) ≡ done x
at_middle pre x rest = rw (at, get_elem?-middle pre x rest) refl

ones-snoc : (pre : List ℕ) (s : ℕ) → ones (pre ++ s ∷ []) ≡ ones pre ++ 1 ∷ []
ones-snoc [] s = refl
ones-snoc (x ∷ pre) s = ap (λ l. 1 ∷ l) (ones-snoc pre s)

length-ones : (pre : List ℕ) → length (ones pre) ≡ length pre
length-ones [] = refl
length-ones (x ∷ pre) = ap suc (length-ones pre)

-- One round of the loop.
step_row_major :
    (pre : List ℕ) (s : ℕ) (suf : List ℕ) (dims : List Dim) (acc : PointExpr)
    → IsIndexable s
    → indexing_loop
        (pre ++ s ∷ suf)
        ((length pre, dynamic) ∷ dims)
        (s ∷ suf)
        (ones pre ++ s ∷ suf)
        acc
      ≡ indexing_loop
          (pre ++ s ∷ suf)
          dims
          suf
          (ones pre ++ 1 ∷ suf)
          (add ◌==◌ (mul acc s) (from (leaf (length pre))))
unfolding indexing_loop dim_term convert
step_row_major pre s suf dims acc (p, l) =
    let here : at (ones pre ++ s ∷ suf) (length pre) ≡ done s =
      ap (λ (n : ℕ). at (ones pre ++ s ∷ suf) n) (sym (length-ones pre))
      ∙ at_middle (ones pre) s suf in
    let stored : set (ones pre ++ s ∷ suf) (length pre) 1 ≡ ones pre ++ 1 ∷ suf =
      ap (λ (n : ℕ). set (ones pre ++ s ∷ suf) n 1) (sym (length-ones pre))
      ∙ set-middle (ones pre) s 1 suf in
    rw (here, at_middle pre s suf)
      (rw
        (
          le→leb s s (omega arith),
          ==-false s 0 (λ e. absurd (omega (arith, e, p))),
          div_self p,
          ==-true s s refl,
        )
        (rw (lt→ltb s (2 ^ 31) l, stored) refl))

append_nil : (xs : List ℕ) → xs ++ [] ≡ xs
append_nil [] = refl
append_nil (x ∷ xs) = ap (λ l. x ∷ l) (append_nil xs)

step-value :
    (env : ℕ → ℕ) (acc : PointExpr) (s i : ℕ)
    → value_expr env (add ◌==◌ (mul acc s) (from (leaf i))) ≡ u32 (value_expr env acc * s + env i)
unfolding value
step-value env acc s i = omega (
  arith,
  add-value ◌==◌ eq_sound env (mul acc s) (from (leaf i)),
  mul-value env acc s,
  from-value env (leaf i),
)

abbrev pub plain_dims : ℕ → ℕ → List Dim
plain_dims lo n = map (λ d. (d, dynamic)) (range_from lo n)

moved :
    (pre : List ℕ) (s : ℕ) (suf : List ℕ) (next e : PointExpr)
    → indexing_loop
        ((pre ++ s ∷ []) ++ suf)
        (plain_dims (length (pre ++ s ∷ [])) (length suf))
        suf
        (ones (pre ++ s ∷ []) ++ suf)
        next
      ≡ done (ones ((pre ++ s ∷ []) ++ suf), e)
    → indexing_loop
        (pre ++ s ∷ suf)
        (plain_dims (suc (length pre)) (length suf))
        suf
        (ones pre ++ 1 ∷ suf)
        next
      ≡ done (ones (pre ++ s ∷ suf), e)
moved pre s suf next e h =
    rw (snoc_assoc pre s suf, length-snoc pre s, ones-snoc pre s, snoc_assoc (ones pre) 1 suf) at h

indexing_loop-row_major :
    (pre suf : List ℕ) (acc : PointExpr)
    → All IsIndexable suf
    → (e : PointExpr) × (indexing_loop
          (pre ++ suf)
          (plain_dims (length pre) (length suf))
          suf
          (ones pre ++ suf)
          acc
        ≡ done (ones (pre ++ suf), e))
      × ((env : ℕ → ℕ)
          → value_expr env e ≡ row_major_offset env (length pre) suf (value_expr env acc))
indexing_loop-row_major pre [] acc a =
    let e : pre ++ [] ≡ pre = append_nil pre in
    (acc, unfold indexing_loop in rw (e, append_nil (ones pre)) refl, λ env. refl)
indexing_loop-row_major pre (s ∷ suf) acc a =
    let next = add ◌==◌ (mul acc s) (from (leaf (length pre))) in
    let (e, runs, means) = indexing_loop-row_major (pre ++ s ∷ []) suf next a.1 in
    (
      e,
      step_row_major pre s suf (plain_dims (suc (length pre)) (length suf)) acc a.0
          ∙ moved pre s suf next e runs,
      λ env.
          means env
          ∙ ap₂ (λ i n. row_major_offset env i suf n) (length-snoc pre s)
              (step-value env acc s (length pre)),
    )

logical_rank-plain_dims : (lo n : ℕ) → logical_rank (plain_dims lo (suc n)) ≡ done (lo + suc n)
unfolding logical_rank
logical_rank-plain_dims lo zero = ap done (omega arith)
logical_rank-plain_dims lo (suc n) =
    let e : max (lo + 1) (suc lo + suc n) ≡ lo + suc (suc n) = omega arith in
    rw (logical_rank-plain_dims (suc lo) n) (ap done e)

all_ones : (xs : List ℕ) → all_of (λ d. d == 1) (ones xs) ≡ true
all_ones [] = refl
all_ones (x ∷ xs) = all_ones xs

-- Of a row-major tensor of one dimension at least, whose sizes an i32 holds and which its layout
-- expands to itself, the indexing expression is found, and its value at any point is the
-- row-major offset of the point, modulo 2 ^ 32.
pub buffer_indexing_expr-row_major_offset :
    (s : ℕ) (shape : List ℕ)
    → All IsIndexable (s ∷ shape)
    → expanded (row_major_dims (length (s ∷ shape))) (s ∷ shape) ≡ done (s ∷ shape)
    → (e : PointExpr) × (buffer_indexing_expr (row_major_dims (length (s ∷ shape))) (s ∷ shape)
        ≡ done e)
      × ((env : ℕ → ℕ) → value_expr env e ≡ row_major_offset env 0 (s ∷ shape) 0)
unfolding buffer_indexing_expr constant_expr value
buffer_indexing_expr-row_major_offset s shape a x =
    let (e, runs, means) = indexing_loop-row_major [] (s ∷ shape) (constant_expr 0) a in
    (
      e,
      rw
          (
            logical_rank-plain_dims 0 (length shape),
            ==-true (length (s ∷ shape)) (0 + suc (length shape)) (omega arith),
            x,
          )
          (rw (runs, all_ones (s ∷ shape)) refl),
      means,
    )
