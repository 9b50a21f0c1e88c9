-- ===== src/Utils/Visits.antt =====
-- morello/src/utils.rs, `iter_multidim_range`: the callback is called with the offset of each point
-- of the box, and with no other.
use mathlib.Core.List.{reverse, reverse-append, reverse-reverse}
use morello.Base.{
  ℕ, ◌+◌, ◌<◌, ◌≡◌, refl, subst, ap, ap₂, ◌∙◌, sym, inl, inr, List, [], ◌∷◌, ◌++◌, map, length, All,
  All-append, arith, false, lt→ltb, ==-true, done,
}
use morello.Utils.Ranges.{
  Range, Axis, point_of, axes_of, index_of, point_count, any_empty, iter_multidim_range,
}
use morello.Utils.Boxes.{IsInside, Ends, states, visit_of, visit_loop-states, axis_at}
use morello.Utils.Points.{
  start_of, AreFull, IsWithin, offset_of, Any, states-Any, IsState, states-All, Ends-start_of,
}

map-Any :
    {A B : Type 0} (f : A → B) (P : A → Type 0) (Q : B → Type 0) (xs : List A)
    → ((x : A) → P x → Q (f x))
    → Any P xs
    → Any Q (map f xs)
map-Any f P Q [] g h = elim h [ ]
map-Any f P Q (x ∷ xs) g (inl p) = inl (g x p)
map-Any f P Q (x ∷ xs) g (inr h) = inr (map-Any f P Q xs g h)

map-All :
    {A B : Type 0} (f : A → B) (P : A → Type 0) (Q : B → Type 0) (xs : List A)
    → ((x : A) → P x → Q (f x))
    → All P xs
    → All Q (map f xs)
map-All f P Q [] g h = tt
map-All f P Q (x ∷ xs) g (p, h) = (g x p, map-All f P Q xs g h)

IsWithin-append :
    (axes bs : List Axis) (pt q : List ℕ)
    → IsWithin axes pt
    → IsWithin bs q
    → IsWithin (axes ++ bs) (pt ++ q)
      × (offset_of (axes ++ bs) (pt ++ q) ≡ offset_of axes pt + offset_of bs q)
IsWithin-append [] bs [] q w v = (v, omega arith)
IsWithin-append [] bs (x ∷ pt) q w v = elim w [ ]
IsWithin-append (a ∷ axes) bs [] q w v = elim w [ ]
IsWithin-append (a ∷ axes) bs (x ∷ pt) q (lo, hi, w) v =
    let (k, e) = IsWithin-append axes bs pt q w v in ((lo, hi, k), omega (arith, e))

-- The box and the offsets do not depend on the order of the dimensions.
IsWithin-reverse :
    (axes : List Axis) (pt : List ℕ)
    → IsWithin axes pt
    → IsWithin (reverse axes) (reverse pt)
      × (offset_of (reverse axes) (reverse pt) ≡ offset_of axes pt)
IsWithin-reverse [] [] w = (tt, refl)
IsWithin-reverse [] (x ∷ pt) w = elim w [ ]
IsWithin-reverse (a ∷ axes) [] w = elim w [ ]
IsWithin-reverse (a ∷ axes) (x ∷ pt) (lo, hi, w) =
    let (k, e) = IsWithin-reverse axes pt w in
    let (j, f) = IsWithin-append (reverse axes) (a ∷ []) (reverse pt) (x ∷ []) k (lo, hi, tt) in
    rw (reverse-append (a ∷ []) axes, reverse-append (x ∷ []) pt) (j, omega (arith, e, f))

All-reverse : {A : Type 0} (P : A → Type 0) (xs : List A) → All P xs → All P (reverse xs)
All-reverse P [] h = tt
All-reverse P (x ∷ xs) (p, h) =
    rw (reverse-append (x ∷ []) xs)
      (All-append P (reverse xs) (x ∷ []) (All-reverse P xs h) (p, tt))

start_of-eq : (axes : List Axis) → All (λ a. a.current ≡ a.range.start) axes → start_of axes ≡ axes
unfolding start_of
start_of-eq [] h = refl
start_of-eq (a ∷ axes) (e, h) =
    ap₂ (λ (c : ℕ) l. axis_at a.range a.stride c ∷ l) (sym e) (start_of-eq axes h)

axes_of-starts :
    (ranges : List Range) (strides : List ℕ)
    → All (λ a. a.current ≡ a.range.start) (axes_of ranges strides)
axes_of-starts [] strides = tt
axes_of-starts (r ∷ ranges) [] = tt
axes_of-starts (r ∷ ranges) (s ∷ strides) = (refl, axes_of-starts ranges strides)

AreFull-IsInside :
    (axes : List Axis) → AreFull axes → All (λ a. a.current ≡ a.range.start) axes → IsInside axes
AreFull-IsInside [] f h = tt
AreFull-IsInside (a ∷ axes) (p, f) (e, h) = ((omega arith, omega arith), AreFull-IsInside axes f h)

any_empty-false :
    (ranges : List Range) → All (λ r. r.start < r.end) ranges → any_empty ranges ≡ false
unfolding any_empty
any_empty-false [] h = refl
any_empty-false (r ∷ ranges) (p, h) = rw (lt→ltb r.start r.end p) (any_empty-false ranges h)

axes_of-AreFull :
    (ranges : List Range) (strides : List ℕ)
    → All (λ r. r.start < r.end) ranges
    → AreFull (axes_of ranges strides)
axes_of-AreFull [] strides h = tt
axes_of-AreFull (r ∷ ranges) [] h = tt
axes_of-AreFull (r ∷ ranges) (s ∷ strides) (p, h) = (p, axes_of-AreFull ranges strides h)

Any-All :
    {A : Type 0} (P Q : A → Type 0) (xs : List A) → Any P xs → All Q xs → Any (λ x. P x × Q x) xs
Any-All P Q [] h k = elim h [ ]
Any-All P Q (x ∷ xs) (inl p) (q, k) = inl (p, q)
Any-All P Q (x ∷ xs) (inr h) (q, k) = inr (Any-All P Q xs h k)

-- A state of the reversed axes, as a call for the axes.
visit_at :
    (whole b : List Axis) (pt : List ℕ)
    → IsWithin whole pt
    → (point_of b ≡ reverse pt) × IsState (reverse whole) b
    → visit_of b ≡ (offset_of whole pt, pt)
visit_at whole b pt w (e, (_, f)) =
    ap₂ (λ (i : ℕ) (l : List ℕ). (i, l))
      (f ∙ ap (offset_of (reverse whole)) e ∙ (IsWithin-reverse whole pt w).1)
      (ap reverse e ∙ reverse-reverse pt)

visit-IsWithin :
    (whole b : List Axis)
    → IsState (reverse whole) b
    → IsWithin whole (reverse (point_of b)) × (index_of b ≡ offset_of whole (reverse (point_of b)))
visit-IsWithin whole b (w, e) =
    let (k, f) = IsWithin-reverse (reverse whole) (point_of b) w in
    let back = reverse-reverse whole in
    (
      subst (λ l. IsWithin l (reverse (point_of b))) back k,
      e ∙ sym f ∙ ap (λ l. offset_of l (reverse (point_of b))) back,
    )

-- Of ranges that are not empty, at least one, with as many strides, `iter_multidim_range` returns,
-- having called the callback for every point of their box, with the sum of its coordinates times the
-- strides; and it makes no other call.
pub iter_multidim_range-IsWithin :
    (r : Range) (ranges : List Range) (strides : List ℕ)
    → length (r ∷ ranges) ≡ length strides
    → All (λ r. r.start < r.end) (r ∷ ranges)
    → (visits : List (ℕ × List ℕ)) × (iter_multidim_range (r ∷ ranges) strides ≡ done visits)
      × ((pt : List ℕ)
          → IsWithin (axes_of (r ∷ ranges) strides) pt
          → Any (λ v. v ≡ (offset_of (axes_of (r ∷ ranges) strides) pt, pt)) visits)
      × All
          (λ v.
            IsWithin (axes_of (r ∷ ranges) strides) v.1
            × (v.0 ≡ offset_of (axes_of (r ∷ ranges) strides) v.1))
          visits
unfolding iter_multidim_range
iter_multidim_range-IsWithin r ranges strides n full = (
  map visit_of (states (point_count axes) axes),
  rw (==-true (length (r ∷ ranges)) (length strides) n, any_empty-false (r ∷ ranges) full)
      (visit_loop-states (point_count axes) axes inside
        (at_starts (Ends (point_count axes)) (Ends-start_of axes are_full))),
  λ pt w.
      map-Any visit_of (λ b. (point_of b ≡ reverse pt) × IsState axes b) _ loops
        (λ b. visit_at whole b pt w)
        (Any-All _ _ loops
          (at_starts (λ l. Any (λ b. point_of b ≡ reverse pt) (states (point_count axes) l))
            (states-Any axes (reverse pt) are_full (IsWithin-reverse whole pt w).0))
          within),
  map-All visit_of (IsState axes) _ loops (λ b. visit-IsWithin whole b) within,
)
  where
    whole : List Axis
    whole = axes_of (r ∷ ranges) strides

    axes : List Axis
    axes = reverse whole

    starts : All (λ a. a.current ≡ a.range.start) axes
    starts = All-reverse _ whole (axes_of-starts (r ∷ ranges) strides)

    are_full : AreFull axes
    are_full = All-reverse _ whole (axes_of-AreFull (r ∷ ranges) strides full)

    inside : IsInside axes
    inside = AreFull-IsInside axes are_full starts

    loops : List (List Axis)
    loops = states (point_count axes) axes

    at_starts : (P : List Axis → Type 0) → P (start_of axes) → P axes
    at_starts P h = subst P (start_of-eq axes starts) h

    within : All (IsState axes) loops
    within =
        at_starts (λ l. All (IsState axes) (states (point_count axes) l)) (states-All axes are_full)
