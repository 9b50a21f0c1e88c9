-- ===== src/Utils/Endings.antt =====
-- morello/src/utils.rs, `iter_multidim_range`: the loop over a box comes to its end.
use morello.Base.{
  ℕ, zero, suc, ◌+◌, ◌-◌, ◌*◌, ◌<◌, ◌≡◌, Option, none, some, List, ◌∷◌, subst, lt→ltb, arith,
}
use morello.Utils.Ranges.{Range, Axis, range_len}
use morello.Utils.Boxes.{ltb_refl, next_of, EndsAfter, Ends, axis_at}

Ends-more :
    (fuel : ℕ) (r : Range) (s c : ℕ) (axes : List Axis)
    → c + 1 < r.end
    → Ends fuel (axis_at r s (c + 1) ∷ axes)
    → Ends (suc fuel) (axis_at r s c ∷ axes)
unfolding Ends
Ends-more fuel r s c axes h e = rw (Ends, lt→ltb (c + 1) r.end h) e

Ends-over :
    (k fuel : ℕ) (r : Range) (s c : ℕ) (axes : List Axis)
    → c + 1 ≡ r.end
    → ((rest : List Axis) → Ends k rest → Ends fuel (axis_at r s r.start ∷ rest))
    → Ends (suc k) axes
    → Ends (suc fuel) (axis_at r s c ∷ axes)
unfolding Ends
Ends-over k fuel r s c axes h again e =
    rw (Ends, ltb_refl (c + 1) r.end h) (carried (next_of axes) e)
  where
    carried :
        (o : Option (List Axis))
        → EndsAfter (Ends k) o
        → EndsAfter
            (Ends fuel)
            (elim o [ none ↦ none | some rest ↦ some (axis_at r s r.start ∷ rest) ])
    carried none h = tt
    carried (some rest) h = again rest h

never : {A : Type 0} (axes : List Axis) → Ends 0 axes → A
unfolding Ends
never axes h = absurd h

-- The innermost dimension multiplies the rounds that the others need.
pub Ends-row :
    (k n : ℕ) (r : Range) (s c : ℕ) (axes : List Axis)
    → r.start < r.end
    → c + suc n ≡ r.end
    → Ends (suc k) axes
    → Ends (k * range_len r + suc n) (axis_at r s c ∷ axes)
Ends-row k (suc n) r s c axes full h e =
    subst (λ (t : ℕ). Ends t (axis_at r s c ∷ axes)) (omega arith)
      (Ends-more (k * range_len r + suc n) r s c axes (omega arith)
        (Ends-row k n r s (c + 1) axes full (omega arith) e))
Ends-row zero zero r s c axes full h e =
    subst (λ (t : ℕ). Ends t (axis_at r s c ∷ axes)) (omega arith)
      (Ends-over 0 0 r s c axes h (λ rest e. never rest e) e)
Ends-row (suc k) zero r s c axes full h e =
    let len = range_len r in
    let fuel : k * len + suc (len - 1) ≡ suc k * len = grind arith in
    subst (λ (t : ℕ). Ends t (axis_at r s c ∷ axes)) (omega arith)
      (Ends-over (suc k) (suc k * len) r s c axes h
        (λ rest again.
          subst (λ (t : ℕ). Ends t (axis_at r s r.start ∷ rest)) fuel
            (Ends-row k (len - 1) r s r.start rest full (omega arith) again))
        e)
