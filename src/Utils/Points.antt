-- ===== src/Utils/Points.antt =====
-- morello/src/utils.rs, `iter_multidim_range`: the states of the loop are the points of the box.
use native.Mathlib.Decide.{dec_lt}
use morello.Base.{
  ℕ, zero, suc, ◌+◌, ◌-◌, ◌*◌, ◌<◌, ◌≤◌, ◌≡◌, refl, subst, ap, ap₂, ◌∙◌, sym, inl, inr, ◌⊎◌, some,
  List, [], ◌∷◌, ◌++◌, map, All, All-append, arith,
}
use morello.Utils.Ranges.{Range, Axis, range_len, point_of, index_of, point_count}
use morello.Utils.Endings.{Ends-row}
use morello.Utils.Boxes.{Ends, next_of, states, row, expand, after, after-suc, axis_at, states-row}

-- The loop from the first point on, with the number of points as its fuel.
unfoldable pub start_of : List Axis → List Axis
start_of axes = map (λ a. axis_at a.range a.stride a.range.start) axes

abbrev pub AreFull : List Axis → Type 0
AreFull axes = All (λ a. a.range.start < a.range.end) axes

pub point_count-pos : (axes : List Axis) → AreFull axes → 1 ≤ point_count axes
point_count-pos [] full = omega arith
point_count-pos (a ∷ axes) (f, full) = grind (arith, point_count-pos axes full)

pub states-expand :
    (a : Axis) (axes : List Axis)
    → AreFull (a ∷ axes)
    → states (point_count (a ∷ axes)) (start_of (a ∷ axes))
      ≡ expand a.range a.stride (states (point_count axes) (start_of axes))
unfolding start_of after
states-expand a axes (f, full) =
    let n = point_count axes - 1 in
    let len = range_len a.range in
    let pos = point_count-pos axes full in
    let back : suc n ≡ point_count axes = omega (arith, pos) in
    let last : suc (len - 1) ≡ len = omega arith in
    let fuel : point_count axes * len ≡ n * len + suc (len - 1) =
      ap (λ (t : ℕ). t * len) (sym back) ∙ grind arith in
    ap (λ (t : ℕ). states t (start_of (a ∷ axes))) fuel
    ∙ states-row n (len - 1) a.range a.stride a.range.start (start_of axes) f (omega arith)
    ∙ ap
        (λ (t : ℕ).
          row a.range a.stride a.range.start t (start_of axes)
          ++ after a.range a.stride n (next_of (start_of axes)))
        last
    ∙ sym (after-suc a.range a.stride n (start_of axes))
    ∙ ap (λ (t : ℕ). after a.range a.stride t (some (start_of axes))) back

-- The points of the box, as coordinates for the axes.
abbrev pub IsWithin : List Axis → List ℕ → Type 0
IsWithin [] [] = Unit
IsWithin (a ∷ axes) (x ∷ pt) = (a.range.start ≤ x) × (x < a.range.end) × IsWithin axes pt
IsWithin [] (x ∷ pt) = ⊥
IsWithin (a ∷ axes) [] = ⊥

abbrev pub offset_of : List Axis → List ℕ → ℕ
offset_of (a ∷ axes) (x ∷ pt) = x * a.stride + offset_of axes pt
offset_of _ _ = 0

abbrev pub Any : {A : Type 0} → (A → Type 0) → List A → Type 0
Any P [] = ⊥
Any P (x ∷ xs) = P x ⊎ Any P xs

pub Any-append :
    {A : Type 0} (P : A → Type 0) (xs ys : List A) → Any P xs ⊎ Any P ys → Any P (xs ++ ys)
Any-append P [] ys (inl h) = elim h [ ]
Any-append P [] ys (inr h) = h
Any-append P (x ∷ xs) ys (inl (inl h)) = inl h
Any-append P (x ∷ xs) ys (inl (inr h)) = inr (Any-append P xs ys (inl h))
Any-append P (x ∷ xs) ys (inr h) = inr (Any-append P xs ys (inr h))

pub row-Any :
    (r : Range) (s c n x : ℕ) (axes : List Axis) (pt : List ℕ)
    → c ≤ x
    → x < c + n
    → point_of axes ≡ pt
    → Any (λ b. point_of b ≡ x ∷ pt) (row r s c n axes)
unfolding row
row-Any r s c zero x axes pt lo hi e = absurd (omega arith)
row-Any r s c (suc n) x axes pt lo hi e = elim (dec_lt c x) [
  | yes p ↦ inr (row-Any r s (c + 1) n x axes pt (omega arith) (omega arith) e)
  | no p ↦ inl (ap₂ ◌∷◌ (omega arith) e)
]

pub expand-Any :
    (r : Range) (s x : ℕ) (outer : List (List Axis)) (pt : List ℕ)
    → r.start ≤ x
    → x < r.end
    → Any (λ b. point_of b ≡ pt) outer
    → Any (λ b. point_of b ≡ x ∷ pt) (expand r s outer)
unfolding expand
expand-Any r s x [] pt lo hi h = elim h [ ]
expand-Any r s x (axes ∷ outer) pt lo hi (inl e) =
    Any-append _ (row r s r.start (range_len r) axes) _
      (inl (row-Any r s r.start (range_len r) x axes pt lo (omega arith) e))
expand-Any r s x (axes ∷ outer) pt lo hi (inr h) =
    Any-append _ (row r s r.start (range_len r) axes) _ (inr (expand-Any r s x outer pt lo hi h))

-- Every point of the box is a state of the loop.
pub states-Any :
    (axes : List Axis) (pt : List ℕ)
    → AreFull axes
    → IsWithin axes pt
    → Any (λ b. point_of b ≡ pt) (states (point_count axes) (start_of axes))
unfolding states start_of
states-Any [] [] full w = inl refl
states-Any [] (x ∷ pt) full w = elim w [ ]
states-Any (a ∷ axes) [] full w = elim w [ ]
states-Any (a ∷ axes) (x ∷ pt) full (lo, hi, w) =
    rw (states-expand a axes full)
      (expand-Any a.range a.stride x _ pt lo hi (states-Any axes pt full.1 w))

-- A state at a point of the box.
abbrev pub IsState : List Axis → List Axis → Type 0
IsState axes b = IsWithin axes (point_of b) × (index_of b ≡ offset_of axes (point_of b))

pub row-All :
    (a : Axis) (axes b : List Axis) (c n : ℕ)
    → a.range.start ≤ c
    → c + n ≤ a.range.end
    → IsState axes b
    → All (IsState (a ∷ axes)) (row a.range a.stride c n b)
unfolding row
row-All a axes b c zero lo hi h = tt
row-All a axes b c (suc n) lo hi (w, e) = (
  ((lo, omega arith, w), ap (λ (i : ℕ). c * a.stride + i) e),
  row-All a axes b (c + 1) n (omega arith) (omega arith) (w, e),
)

pub expand-All :
    (a : Axis) (axes : List Axis) (outer : List (List Axis))
    → a.range.start < a.range.end
    → All (IsState axes) outer
    → All (IsState (a ∷ axes)) (expand a.range a.stride outer)
unfolding expand
expand-All a axes [] f h = tt
expand-All a axes (b ∷ outer) f (s, h) =
    All-append _ (row a.range a.stride a.range.start (range_len a.range) b) _
      (row-All a axes b a.range.start (range_len a.range) (omega arith) (omega arith) s)
      (expand-All a axes outer f h)

pub states-All :
    (axes : List Axis)
    → AreFull axes
    → All (IsState axes) (states (point_count axes) (start_of axes))
unfolding states start_of
states-All [] full = ((tt, refl), tt)
states-All (a ∷ axes) full =
    rw (states-expand a axes full) (expand-All a axes _ full.0 (states-All axes full.1))

-- The loop returns within as many rounds as the box has points.
pub Ends-start_of : (axes : List Axis) → AreFull axes → Ends (point_count axes) (start_of axes)
unfolding start_of Ends
Ends-start_of [] full = tt
Ends-start_of (a ∷ axes) (f, full) =
    let n = point_count axes - 1 in
    let len = range_len a.range in
    let pos = point_count-pos axes full in
    let back : point_count axes ≡ suc n = omega (arith, pos) in
    let fuel : n * len + suc (len - 1) ≡ point_count axes * len =
      grind arith ∙ ap (λ (t : ℕ). t * len) (sym back) in
    subst (λ (t : ℕ). Ends t (start_of (a ∷ axes))) fuel
      (Ends-row n (len - 1) a.range a.stride a.range.start (start_of axes) f (omega arith)
        (subst (λ (t : ℕ). Ends t (start_of axes)) back (Ends-start_of axes full)))
