-- ===== src/Memory/Transition.antt =====
-- morello/src/memorylimits.rs: `MemoryLimits::transition`.
use morello.Base.{
  ℕ, zero, suc, ◌≡◌, refl, inl, inr, Option, none, some, List, [], ◌∷◌, Outcome, done, ◌>>=◌,
  Option-cases,
}
use morello.Memory.{
  MemVec, MemoryLimits, standard, simple, inner, discretize, checked_sub_snap_down,
  transition_inner, transition_repeat, transition,
}
use morello.Memory.Entries.{AreLengths, discretize_id}
use morello.Memory.Subtract.{
  AreTaken, AreTaken-AreLengths, checked_sub_snap_down-AreTaken, HasShort,
  checked_sub_snap_down-none_iff,
}

-- The limits of each child: what is left of `v` after the child's own allocation.
pub data ChildLimits (v : MemVec) : List (List ℕ) → List MemoryLimits → Type 0 where
  no_child : ChildLimits v [] []
  child :
      {d : List ℕ} {ds : List (List ℕ)} {w : MemVec} {ls : List MemoryLimits}
      → AreTaken v d w
      → ChildLimits v ds ls
      → ChildLimits v (d ∷ ds) (standard w ∷ ls)

-- One child's allocation does not fit.
pub data HasOversized (v : MemVec) : List (List ℕ) → Type 0 where
  first : {d : List ℕ} {ds : List (List ℕ)} → HasShort v d → HasOversized v (d ∷ ds)
  further : {d : List ℕ} {ds : List (List ℕ)} → HasOversized v ds → HasOversized v (d ∷ ds)

-- The two outcomes of `transition` that the caller can rely on.
pub data IsTransition (v : MemVec) (ds : List (List ℕ))
    : Outcome (Option (List MemoryLimits)) → Type 0 where
  fits : {ls : List MemoryLimits} → ChildLimits v ds ls → IsTransition v ds (done (some ls))
  exceeds : HasOversized v ds → IsTransition v ds (done none)

module _ (v : MemVec) (a : AreLengths v) where
  fitting_step :
      (d : List ℕ) {w : MemVec}
      → checked_sub_snap_down v d ≡ some w
      → AreTaken v d w × (discretize (standard w) ≡ done (standard w))
  fitting_step d h =
      let t = checked_sub_snap_down-AreTaken v d a h in
      (t, discretize_id _ (AreTaken-AreLengths t a).0)

  add_child :
      (d : List ℕ) (ds : List (List ℕ)) {w : MemVec} {o : Outcome (Option (List MemoryLimits))}
      → AreTaken v d w
      → IsTransition v ds o
      → IsTransition v
          (d ∷ ds)
          (o >>= λ r. done (elim r [ none ↦ none | some ls ↦ some (standard w ∷ ls) ]))
  add_child d ds t (fits c) = fits (child t c)
  add_child d ds t (exceeds h) = exceeds (further h)

  transition_inner-IsTransition : (ds : List (List ℕ)) → IsTransition v ds (transition_inner v ds)
  unfolding transition_inner
  transition_inner-IsTransition [] = fits no_child
  transition_inner-IsTransition (d ∷ ds) =
      let ih = transition_inner-IsTransition ds in
      elim (Option-cases (checked_sub_snap_down v d)) [
        | inl out ↦
            rw (out, transition_inner)
              (exceeds (first ((checked_sub_snap_down-none_iff v d).0 out)))
        | inr (w, taken) ↦
            let (t, id) = fitting_step d taken in
            rw (taken, transition_inner) (rw id (add_child d ds t ih))
      ]

-- With limits whose entries are lengths of words, an `Inner` allocation gives one limit for each
-- child, made by taking the child's own allocation, or `None` if one of these does not fit. It
-- never panics.
pub transition-inner :
    (v : MemVec) (ds : List (List ℕ)) (rounds : ℕ)
    → AreLengths v
    → (o : Outcome (Option (List MemoryLimits))) × (transition rounds (standard v) (inner ds)
        ≡ some o)
      × IsTransition v ds o
unfolding transition
transition-inner v ds rounds a = (transition_inner v ds, refl, transition_inner-IsTransition v a ds)

transition_repeat-runs_on :
    (v : MemVec) (d : List ℕ) {w : MemVec}
    → checked_sub_snap_down v d ≡ some w
    → discretize (standard w) ≡ done (standard w)
    → (rounds : ℕ) (ls : List MemoryLimits) → transition_repeat rounds v d ls ≡ none
unfolding transition_repeat
transition_repeat-runs_on v d taken step zero ls = refl
transition_repeat-runs_on v d {w} taken step (suc n) ls =
    rw (taken, transition_repeat)
      (rw (step, transition_repeat) (transition_repeat-runs_on v d taken step n (standard w ∷ ls)))

-- A `Simple` allocation that fits never gives the children their limits: after any number of
-- rounds the loop still runs.
pub transition_simple-runs_on :
    (v : MemVec) (d : List ℕ) {w : MemVec}
    → AreLengths v
    → checked_sub_snap_down v d ≡ some w
    → (rounds : ℕ) → transition rounds (standard v) (simple d) ≡ none
unfolding transition
transition_simple-runs_on v d a taken rounds =
    transition_repeat-runs_on v d taken (fitting_step v a d taken).1 rounds []

-- A `Simple` allocation that does not fit is refused in the first round.
pub transition_simple-refuses :
    (v : MemVec) (d : List ℕ) (rounds : ℕ)
    → HasShort v d
    → transition (suc rounds) (standard v) (simple d) ≡ some (done none)
unfolding transition transition_repeat
transition_simple-refuses v d rounds h =
    rw ((checked_sub_snap_down-none_iff v d).1 h, transition_repeat)
