-- ===== src/NdArray/Positions.antt =====
-- morello/src/ndarray.rs: the offsets of an array's coordinates, and `position`.
use mathlib.Core.List.{reverse, reverse-append}
use native.Mathlib.Nat.{div-add-mod, div-lt_iff_lt-mul, mod-lt}
use morello.Base.{
  ℕ, zero, suc, ◌+◌, ◌*◌, ◌/◌, ◌%◌, ◌<◌, ◌≡◌, refl, ap, ◌∙◌, sym, subst, Bool, true, false, Option,
  none, some, List, [], ◌∷◌, ◌++◌, length, product, product-reverse, get_elem?, All, Bool-cases,
  Option-cases, inl, inr, ◌⊎◌, ==-true, Outcome, done, IsDivRem, arith,
}
use morello.NdArray.{
  RleVec, NdArray, strides_loop, calculate_strides, dot, find_from, unravel, position, data_offset,
  get,
}

strides_loop-append :
    (stride : ℕ) (dims more : List ℕ)
    → strides_loop stride (dims ++ more)
      ≡ strides_loop stride dims ++ strides_loop (stride * product dims) more
unfolding strides_loop
strides_loop-append stride [] more = ap (λ (s : ℕ). strides_loop s more) (omega arith)
strides_loop-append stride (d ∷ dims) more =
    ap (λ l. stride ∷ l)
      (strides_loop-append (stride * d) dims more
        ∙ ap (λ (s : ℕ). strides_loop (stride * d) dims ++ strides_loop s more) (grind arith))

-- The stride of a dimension is the volume of those after it.
pub calculate_strides-cons :
    (dim : ℕ) (shape : List ℕ)
    → calculate_strides (dim ∷ shape) ≡ product shape ∷ calculate_strides shape
unfolding calculate_strides strides_loop
calculate_strides-cons dim shape =
    ap (λ l. reverse (strides_loop 1 l)) (reverse-append (dim ∷ []) shape)
    ∙ ap reverse (strides_loop-append 1 (reverse shape) (dim ∷ []))
    ∙ reverse-append (strides_loop 1 (reverse shape)) ((1 * product (reverse shape)) ∷ [])
    ∙ ap (λ (s : ℕ). s ∷ reverse (strides_loop 1 (reverse shape)))
        (omega (arith, product-reverse shape))

-- A point of an array of a shape.
abbrev pub IsIn : List ℕ → List ℕ → Type 0
IsIn [] [] = Unit
IsIn (i ∷ pt) (dim ∷ shape) = (i < dim) × IsIn pt shape
IsIn _ _ = ⊥

pub IsIn-length : (pt shape : List ℕ) → IsIn pt shape → length pt ≡ length shape
IsIn-length [] [] h = refl
IsIn-length [] (d ∷ shape) h = absurd h
IsIn-length (i ∷ pt) [] h = absurd h
IsIn-length (i ∷ pt) (d ∷ shape) (_, h) = ap suc (IsIn-length pt shape h)

quotient_lt : (n dim p : ℕ) → n < dim * p → (0 < p) × (n / p < dim) × (n % p < p)
quotient_lt n dim zero h = absurd (grind (arith, h))
quotient_lt n dim (suc p) h =
    let pos : 0 < suc p = omega arith in (pos, (div-lt_iff_lt-mul pos).1 h, mod-lt n pos)

calculate_strides-nil : calculate_strides [] ≡ []
unfolding calculate_strides strides_loop
calculate_strides-nil = refl

-- The coordinates of an offset, with nothing left over.
abbrev IsUnravelled : List ℕ → List ℕ → ℕ → List ℕ × ℕ → Type 0
IsUnravelled shape strides n r = IsIn r.0 shape × (r.1 ≡ 0) × (dot r.0 strides ≡ n)

module _ (R : RleVec) (div_rem : ℕ → ℕ → ℕ × ℕ) (contract : IsDivRem div_rem) where
  unravel-cons :
      (p : ℕ) (strides : List ℕ) (n : ℕ)
      → 0 < p
      → unravel R div_rem (p ∷ strides) n
        ≡ (n / p ∷ (unravel R div_rem strides (n % p)).0, (unravel R div_rem strides (n % p)).1)
  unfolding unravel
  unravel-cons p strides n pos =
      ap
        (λ (q : ℕ × ℕ).
          (q.0 ∷ (unravel R div_rem strides q.1).0, (unravel R div_rem strides q.1).1))
        (contract n p pos)

  unravel-nil : (n : ℕ) → unravel R div_rem [] n ≡ ([], n)
  unfolding unravel
  unravel-nil n = refl

  unravel-IsUnravelled :
      (shape : List ℕ) (n : ℕ)
      → n < product shape
      → IsUnravelled shape
          (calculate_strides shape)
          n
          (unravel R div_rem (calculate_strides shape) n)
  unfolding dot
  unravel-IsUnravelled [] n h =
      rw (calculate_strides-nil, unravel-nil n) (tt, omega arith, omega arith)
  unravel-IsUnravelled (dim ∷ shape) n h =
      let (pos, below, rest) = quotient_lt n dim (product shape) h in
      let (k, z, e) = unravel-IsUnravelled shape (n % product shape) rest in
      rw
        (
          calculate_strides-cons dim shape,
          unravel-cons (product shape) (calculate_strides shape) n pos,
        )
        ((below, k), z, rw e (grind (arith, div-add-mod n (product shape))))

-- What `find_from` yields of a list, from the index `i` on.
abbrev IsFound : {T : Type 0} → (T → Bool) → ℕ → List T → Option ℕ → Type 0
IsFound predicate i xs none = All (λ x. predicate x ≡ false) xs
IsFound {T} predicate i xs (some idx) =
    (j : ℕ) × (x : T) × (idx ≡ i + j)
    × (j < length xs)
    × (get_elem? xs j ≡ some x)
    × (predicate x ≡ true)

find_from-IsFound :
    {T : Type 0} (predicate : T → Bool) (i : ℕ) (xs : List T)
    → IsFound predicate i xs (find_from predicate i xs)
unfolding find_from
find_from-IsFound predicate i [] = tt
find_from-IsFound {T} predicate i (x ∷ xs) = elim (Bool-cases (predicate x)) [
  | inl fits ↦ rw fits (0, x, omega arith, omega arith, refl, fits)
  | inr fails ↦
      rw fails
        (onward (find_from predicate (suc i) xs) (find_from-IsFound predicate (suc i) xs) fails)
]
  where
    onward :
        (o : Option ℕ)
        → IsFound predicate (suc i) xs o
        → predicate x ≡ false
        → IsFound predicate i (x ∷ xs) o
    onward none h fails = (fails, h)
    onward (some idx) (j, y, e, lt, g, fits) fails = (suc j, y, omega arith, omega arith, g, fits)

module _ (R : RleVec) where
  -- As many cells as the shape has points, and the strides of the shape.
  unfoldable pub IsArray : {T : Type 0} → NdArray R T → Type 0
  IsArray a = (a.strides ≡ calculate_strides a.shape) × (length (R.iter a.cells) ≡ product a.shape)

  module _ (div_rem : ℕ → ℕ → ℕ × ℕ) (contract : IsDivRem div_rem) where
    at_offset :
        {T : Type 0} (a : NdArray R T) (pt : List ℕ) (j : ℕ) {x : T}
        → IsIn pt a.shape
        → dot pt a.strides ≡ j
        → get_elem? (R.iter a.cells) j ≡ some x
        → get R a pt ≡ done x
    unfolding get data_offset
    at_offset a pt j inside e g =
        rw (==-true (length pt) (length a.shape) (IsIn-length pt a.shape inside), e)
          (ap (λ o. elim o [ none ↦ Outcome.panic | some y ↦ done y ]) g)

    position-none :
        {T : Type 0} (a : NdArray R T) (predicate : T → Bool)
        → find_from predicate 0 (R.iter a.cells) ≡ none
        → position R div_rem a predicate ≡ done none
    unfolding position
    position-none a predicate e = rw (position, e) refl

    position-some :
        {T : Type 0} (a : NdArray R T) (predicate : T → Bool) (j : ℕ)
        → a.strides ≡ calculate_strides a.shape
        → j < product a.shape
        → find_from predicate 0 (R.iter a.cells) ≡ some j
        → (pt : List ℕ) × (position R div_rem a predicate ≡ done (some pt))
          × IsIn pt a.shape
          × (dot pt a.strides ≡ j)
    unfolding position
    position-some a predicate j strides lt e =
        let (k, z, f) =
          subst (λ l. IsUnravelled a.shape l j (unravel R div_rem l j)) (sym strides)
            (unravel-IsUnravelled R div_rem contract a.shape j lt) in
        let pt = (unravel R div_rem a.strides j).0 in
        (
          pt,
          rw
              (
                position,
                e,
                ==-true _ 0 z,
                ==-true (length pt) (length a.shape) (IsIn-length pt a.shape k),
              )
              refl,
          k,
          f,
        )

    -- Of an array with the strides of its shape and as many cells as the shape has points, `position`
    -- returns the coordinates of a cell whose value fits, within the shape, and indexing the array
    -- there yields that value; or it returns none, and no cell fits. `div_rem` yields quotient and
    -- remainder.
    pub position-IsIn :
        {T : Type 0} (a : NdArray R T) (predicate : T → Bool)
        → IsArray a
        → ((pt : List ℕ) × (x : T) × (position R div_rem a predicate ≡ done (some pt))
            × IsIn pt a.shape
            × (get R a pt ≡ done x)
            × (predicate x ≡ true))
          ⊎ ((position R div_rem a predicate ≡ done none)
              × All (λ x. predicate x ≡ false) (R.iter a.cells))
    unfolding position IsArray
    position-IsIn {T} a predicate (strides, cells) =
        elim (Option-cases (find_from predicate 0 (R.iter a.cells))) [
          | inl e ↦ inr (
            position-none a predicate e,
            subst (IsFound predicate 0 (R.iter a.cells)) e
                (find_from-IsFound predicate 0 (R.iter a.cells)),
          )
          | inr (idx, e) ↦
              let (j, x, f, lt, g, fits) =
                subst (IsFound predicate 0 (R.iter a.cells)) e
                  (find_from-IsFound predicate 0 (R.iter a.cells)) in
              let same : idx ≡ j = omega (arith, f) in
              let (pt, p, k, d) =
                position-some a predicate j strides (omega (arith, lt, cells)) (e ∙ ap some same) in
              inl (pt, x, p, k, at_offset a pt j k d g, fits)
        ]
