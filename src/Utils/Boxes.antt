-- ===== src/Utils/Boxes.antt =====
-- morello/src/utils.rs, `iter_multidim_range`: the calls of its callback, as nested loops.
use mathlib.Core.List.{reverse}
use morello.Base.{
  ℕ, zero, suc, ◌+◌, ◌-◌, ◌*◌, ◌<◌, ◌≤◌, ◌≡◌, refl, ap, ◌∙◌, sym, false, Option, none, some,
  Outcome, done, ◌>>=◌, List, [], ◌∷◌, ◌++◌, map, All, Bool-cases, inl, inr, some_eq, subst, ltb,
  ltb→lt, lt→ltb, if◌then◌else◌, arith,
}
use morello.Utils.Ranges.{Range, Axis, range_len, point_of, index_of, advance, visit_loop}

abbrev pub IsInside : List Axis → Type 0
IsInside axes = All (λ a. (a.range.start ≤ a.current) × (a.current < a.range.end)) axes

pub ltb_refl : (a b : ℕ) → a ≡ b → ltb a b ≡ false
ltb_refl a b h = ground arith

-- The next point, without its offset.
abbrev pub next_of : List Axis → Option (List Axis)
next_of [] = none
next_of (a ∷ axes) =
    if ltb (a.current + 1) a.range.end
    then some (record a { current = a.current + 1 } ∷ axes)
    else elim (next_of axes) [
      | none ↦ none
      | some rest ↦ some (record a { current = a.range.start } ∷ rest)
    ]

abbrev with_index : ℕ → Option (List Axis) → Option (List Axis × ℕ)
with_index x none = none
with_index x (some axes) = some (axes, x + index_of axes)

carry_index :
    (x c s lo idx : ℕ) → lo ≤ c → x + (c * s + idx) + s - s * (c + 1 - lo) ≡ (x + lo * s) + idx
carry_index x c s lo idx h =
    let k = c + 1 - lo in
    let whole : s * (k + lo) ≡ s * (c + 1) = ap (λ (t : ℕ). s * t) (omega arith) in
    let left : s * (k + lo) ≡ s * k + lo * s = grind arith in
    let right : s * (c + 1) ≡ c * s + s = grind arith in omega (arith, whole, left, right)

step_index : (x c s idx : ℕ) → x + (c * s + idx) + s ≡ x + ((c + 1) * s + idx)
step_index x c s idx = grind arith

-- The offset that the inner loop maintains is that of the point.
advance-next_of :
    (axes : List Axis) (x : ℕ)
    → IsInside axes
    → advance axes (x + index_of axes) ≡ with_index x (next_of axes)
unfolding advance
advance-next_of [] x inside = refl
advance-next_of (a ∷ axes) x ((lo, hi), inside) =
    elim (Bool-cases (ltb (a.current + 1) a.range.end)) [
      | inl more ↦ rw more (
          ap (λ (i : ℕ). some (record a { current = a.current + 1 } ∷ axes, i))
            (step_index x a.current a.stride (index_of axes)))
      | inr over ↦
          rw
            (
              over,
              carry_index x a.current a.stride a.range.start (index_of axes) lo,
              advance-next_of axes (x + a.range.start * a.stride) inside,
            )
            (carried (next_of axes))
    ]
  where
    carried :
        (o : Option (List Axis))
        → Path
            (Option (List Axis × ℕ))
            (elim (with_index (x + a.range.start * a.stride) o) [
              | none ↦ none
              | some (rest, i) ↦ some (record a { current = a.range.start } ∷ rest, i)
            ])
            (with_index x (elim o [
              | none ↦ none
              | some rest ↦ some (record a { current = a.range.start } ∷ rest)
            ]))
    carried none = refl
    carried (some rest) =
        ap (λ (i : ℕ). some (record a { current = a.range.start } ∷ rest, i)) (omega arith)

next_of-IsInside :
    (axes : List Axis) {next : List Axis} → IsInside axes → next_of axes ≡ some next → IsInside next
next_of-IsInside [] inside h = cc
next_of-IsInside (a ∷ axes) {next} ((lo, hi), inside) h =
    elim (Bool-cases (ltb (a.current + 1) a.range.end)) [
      | inl more ↦
          let e : some (record a { current = a.current + 1 } ∷ axes) ≡ some next = rw more at h in
          subst IsInside (some_eq e) ((omega arith, ltb→lt _ _ more), inside)
      | inr over ↦
          carry (λ rest e. next_of-IsInside axes inside e) (next_of axes) refl (rw over at h)
    ]
  where
    carry :
        ((rest : List Axis) → next_of axes ≡ some rest → IsInside rest)
        → (o : Option (List Axis)) → next_of axes ≡ o
        → Path
            (Option (List Axis))
            (elim o [
              | none ↦ none
              | some rest ↦ some (record a { current = a.range.start } ∷ rest)
            ])
            (some next)
        → IsInside next
    carry ih none e h = cc
    carry ih (some rest) e h = subst IsInside (some_eq h) ((omega arith, omega arith), ih rest e)

-- The states of the loop.
unfoldable pub states : ℕ → List Axis → List (List Axis)
states zero axes = []
states (suc fuel) axes = axes ∷ elim (next_of axes) [ none ↦ [] | some next ↦ states fuel next ]

abbrev pub visit_of : List Axis → ℕ × List ℕ
visit_of axes = (index_of axes, reverse (point_of axes))

-- The inner loop returns within so many rounds.
abbrev pub EndsAfter : (List Axis → Type 0) → Option (List Axis) → Type 0
EndsAfter P none = Unit
EndsAfter P (some next) = P next

unfoldable pub Ends : ℕ → List Axis → Type 0
Ends zero axes = ⊥
Ends (suc fuel) axes = EndsAfter (Ends fuel) (next_of axes)

pub visit_loop-states :
    (fuel : ℕ) (axes : List Axis)
    → IsInside axes
    → Ends fuel axes
    → visit_loop fuel axes (index_of axes) ≡ done (map visit_of (states fuel axes))
unfolding visit_loop states Ends
visit_loop-states zero axes inside ends = absurd ends
visit_loop-states (suc fuel) axes inside ends =
    let first : advance axes (index_of axes) ≡ with_index 0 (next_of axes) =
      ap (λ (i : ℕ). advance axes i) (omega arith) ∙ advance-next_of axes 0 inside in
    rw (visit_loop, first)
      (onward
        (λ next i e.
          ap (λ (t : ℕ). visit_loop fuel next t) (omega arith) ∙ visit_loop-states fuel next i e)
        (next_of axes) refl ends)
  where
    onward :
        ((next : List Axis)
          → IsInside next
          → Ends fuel next
          → visit_loop fuel next (0 + index_of next) ≡ done (map visit_of (states fuel next)))
        → (o : Option (List Axis)) → next_of axes ≡ o
        → EndsAfter (Ends fuel) o
        → Path
            (Outcome (List (ℕ × List ℕ)))
            (elim (with_index 0 o) [
              | none ↦ done (visit_of axes ∷ [])
              | some (next, i) ↦ visit_loop fuel next i >>= λ rest. done (visit_of axes ∷ rest)
            ])
            (done
              (visit_of axes ∷ map visit_of (elim o [ none ↦ [] | some next ↦ states fuel next ])))
    onward ih none e end = refl
    onward ih (some next) e end =
        ap (λ r. r >>= λ rest. done (visit_of axes ∷ rest))
          (ih next (next_of-IsInside axes inside e) end)

-- The points along the innermost dimension, from the coordinate `c` on.
unfoldable pub row : Range → ℕ → ℕ → ℕ → List Axis → List (List Axis)
row r s c zero axes = []
row r s c (suc n) axes =
    (record { range = r; stride = s; current = c } ∷ axes) ∷ row r s (c + 1) n axes

unfoldable pub expand : Range → ℕ → List (List Axis) → List (List Axis)
expand r s [] = []
expand r s (axes ∷ outer) = row r s r.start (range_len r) axes ++ expand r s outer

unfoldable pub after : Range → ℕ → ℕ → Option (List Axis) → List (List Axis)
after r s k none = []
after r s k (some axes) = expand r s (states k axes)

pub after-suc :
    (r : Range) (s k : ℕ) (axes : List Axis)
    → after r s (suc k) (some axes)
      ≡ row r s r.start (range_len r) axes ++ after r s k (next_of axes)
unfolding after expand states
after-suc r s k axes = ap (λ l. row r s r.start (range_len r) axes ++ l) (onward (next_of axes))
  where
    onward :
        (o : Option (List Axis))
        → expand r s (elim o [ none ↦ [] | some next ↦ states k next ]) ≡ after r s k o
    onward none = refl
    onward (some next) = refl

abbrev pub axis_at : Range → ℕ → ℕ → Axis
axis_at r s c = record { range = r; stride = s; current = c }

states-more :
    (fuel : ℕ) (r : Range) (s c : ℕ) (axes : List Axis)
    → c + 1 < r.end
    → states (suc fuel) (axis_at r s c ∷ axes)
      ≡ (axis_at r s c ∷ axes) ∷ states fuel (axis_at r s (c + 1) ∷ axes)
unfolding states
states-more fuel r s c axes h = rw (lt→ltb (c + 1) r.end h)

resume : ℕ → Range → ℕ → Option (List Axis) → List (List Axis)
resume fuel r s none = []
resume fuel r s (some axes) = states fuel (axis_at r s r.start ∷ axes)

states-over :
    (fuel : ℕ) (r : Range) (s c : ℕ) (axes : List Axis)
    → c + 1 ≡ r.end
    → states (suc fuel) (axis_at r s c ∷ axes)
      ≡ (axis_at r s c ∷ axes) ∷ resume fuel r s (next_of axes)
unfolding states resume
states-over fuel r s c axes h =
    rw (ltb_refl (c + 1) r.end h) (ap (λ l. (axis_at r s c ∷ axes) ∷ l) (carried (next_of axes)))
  where
    carried :
        (o : Option (List Axis))
        → Path
            (List (List Axis))
            (let m : Option (List Axis) = elim o [
              | none ↦ none
              | some rest ↦ some (axis_at r s r.start ∷ rest)
            ] in
              elim m [ none ↦ [] | some next ↦ states fuel next ])
            (resume fuel r s o)
    carried none = refl
    carried (some rest) = refl

resume-zero : (r : Range) (s : ℕ) (o : Option (List Axis)) → resume 0 r s o ≡ after r s 0 o
unfolding resume after states expand
resume-zero r s none = refl
resume-zero r s (some axes) = refl

resume-suc :
    (k fuel : ℕ) (r : Range) (s : ℕ)
    → ((axes : List Axis)
        → states fuel (axis_at r s r.start ∷ axes)
          ≡ row r s r.start (range_len r) axes ++ after r s k (next_of axes))
    → (o : Option (List Axis)) → resume fuel r s o ≡ after r s (suc k) o
unfolding resume after
resume-suc k fuel r s ih none = refl
resume-suc k fuel r s ih (some axes) = ih axes ∙ sym (after-suc r s k axes)

-- The loop runs through the innermost dimension for each point of the others.
pub states-row :
    (k n : ℕ) (r : Range) (s c : ℕ) (axes : List Axis)
    → r.start < r.end
    → c + suc n ≡ r.end
    → states (k * range_len r + suc n) (axis_at r s c ∷ axes)
      ≡ row r s c (suc n) axes ++ after r s k (next_of axes)
unfolding row
states-row k (suc n) r s c axes full h =
    ap (λ (t : ℕ). states t (axis_at r s c ∷ axes)) (omega arith)
    ∙ states-more (k * range_len r + suc n) r s c axes (omega arith)
    ∙ ap (λ l. (axis_at r s c ∷ axes) ∷ l) (states-row k n r s (c + 1) axes full (omega arith))
states-row zero zero r s c axes full h =
    ap (λ (t : ℕ). states t (axis_at r s c ∷ axes)) (omega arith)
    ∙ states-over 0 r s c axes h
    ∙ ap (λ l. (axis_at r s c ∷ axes) ∷ l) (resume-zero r s (next_of axes))
states-row (suc k) zero r s c axes full h =
    let len = range_len r in
    let fuel : suc k * len ≡ k * len + suc (len - 1) = grind arith in
    let back : suc (len - 1) ≡ len = omega arith in
    let again = λ (rest : List Axis).
      ap (λ (t : ℕ). states t (axis_at r s r.start ∷ rest)) fuel
      ∙ states-row k (len - 1) r s r.start rest full (omega arith)
      ∙ ap (λ (t : ℕ). row r s r.start t rest ++ after r s k (next_of rest)) back in
    ap (λ (t : ℕ). states t (axis_at r s c ∷ axes)) (omega arith)
    ∙ states-over (suc k * len) r s c axes h
    ∙ ap (λ l. (axis_at r s c ∷ axes) ∷ l) (resume-suc k (suc k * len) r s again (next_of axes))
