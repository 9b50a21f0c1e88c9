-- ===== src/Scheduling/Stages.antt =====
-- morello/src/scheduling.rs: the children of a Move: the copies and the body.
use morello.Base.{
  ℕ, >>=-eq-done, ◌≡◌, refl, ap, ◌∙◌, sym, subst, Bool, true, false, List, [], ◌∷◌, map, set,
  if◌then◌else◌, Option, none, some, Outcome,
}
use morello.Memory.{MemoryLimits, zero_levels_slower_than_all}
use morello.Layout.{ok}
use morello.Layout.Outcomes.{pass_ok}
use morello.Layout.Update.{FindPosition}
use morello.Target.{Target}
use morello.TensorSpec.{TensorSpec, TensorSpecAux}
use morello.Spec.{PrimitiveBasics, move_spec}
use morello.Spec.Limits.{levels_of}
use morello.Spec.Logical.{primitive, compose, LogicalSpec, Spec, parameters}
use morello.Spec.Replace.{logical_replace_io}
use morello.Spec.Canonical.{logical_canonicalize, spec_canonicalize}
use morello.Views.{view_spec, Param}
use morello.Scheduling.{applied, SpecApp, same_tensor_spec}
use morello.Scheduling.Attempts.{>>=-eq-applied, run-bind, unwrapped-bind, applied_eq}
use morello.Scheduling.Tiles.{params_from, as_views}
use morello.Scheduling.Bodies.{
  shapes_of, canonicalize-primitive, canonicalize-compose, replaced-shapes, replaced-compose,
}
use morello.Scheduling.Loops.{view_specs-params}
use morello.Scheduling.Moves.{is_some, logue_app, make_logue, moved_body}

-- The operands that a Spec application gets.
abbrev pub operands_of : {Level : Type 0} → SpecApp Level → List (TensorSpec Level)
operands_of app = map view_spec app.args

-- An application of a Move Spec from one tensor to another.
abbrev pub IsCopy :
    {Level : Type 0} → TensorSpec Level → TensorSpec Level → Bool → SpecApp Level → Type 0
IsCopy {Level} source dest serial app =
    (operands_of app ≡ source ∷ dest ∷ [])
    × (auxes : List (TensorSpecAux Level)) × (app.spec.logical
        ≡ primitive
            (record {
              typ = move_spec;
              spec_shape = source.shape;
              dtypes = source.dtype ∷ dest.dtype ∷ [];
            })
            auxes serial)
    × (levels_of auxes ≡ source.aux.level ∷ dest.aux.level ∷ [])

-- The same primitive Spec over other operands: what it computes and whether it is serial are kept,
-- and its operands have the shapes, element types and levels of the others.
abbrev pub IsOver :
    {Level : Type 0}
    → Target Level
    → LogicalSpec Level
    → List (TensorSpec Level)
    → LogicalSpec Level
    → Type 0
IsOver {Level} target (primitive basics auxes serial) operands inner =
    (b : PrimitiveBasics) × (bs : List (TensorSpecAux Level)) × (us : List (TensorSpec Level))
    × (inner ≡ primitive b bs serial)
    × (b.typ ≡ basics.typ)
    × (b.dtypes ≡ map (λ t. t.dtype) operands)
    × (levels_of bs ≡ map (λ t. t.aux.level) operands)
    × (parameters target.memory (primitive b (map (λ t. t.aux) operands) serial) ≡ Outcome.done us)
    × (shapes_of us ≡ shapes_of operands)
IsOver target (compose components auxes serial) operands inner = ⊥

abbrev pub IfWanted : {A : Type 0} → (A → Type 0) → Bool → Option A → Type 0
IfWanted P true (some a) = P a
IfWanted P false none = Unit
IfWanted P _ _ = ⊥

pub levels-map :
    {Level : Type 0} (ts : List (TensorSpec Level))
    → levels_of (map (λ t. t.aux) ts) ≡ map (λ t. t.aux.level) ts
levels-map [] = refl
levels-map (t ∷ ts) = ap (λ l. t.aux.level ∷ l) (levels-map ts)

module _ (find_position : FindPosition) {Level : Type 0} (target : Target Level) where
  pub canonical_of :
      (spec : Spec Level) {c : Spec Level}
      → spec_canonicalize find_position target.memory target.level_lt target.levels spec
        ≡ Outcome.done (ok c)
      → logical_canonicalize find_position spec.logical ≡ Outcome.done (ok c.logical)
  unfolding spec_canonicalize
  canonical_of spec h =
      let (ps, _, h1) = >>=-eq-done (parameters target.memory spec.logical) _ h in
      let (limits, _, h2) =
        >>=-eq-done
          (zero_levels_slower_than_all target.level_lt target.levels spec.limits
            (map (λ p. p.aux.level) ps))
          _ h1 in
      let (r, e, h3) = >>=-eq-done (logical_canonicalize find_position spec.logical) _ h2 in
      let (l, r_eq, c_eq) = pass_ok r (λ l. record { logical = l; limits = limits }) h3 in
      e ∙ ap Outcome.done (r_eq ∙ ap (λ (s : Spec Level). ok s.logical) c_eq)

  pub logue_app-IsCopy :
      (left right : TensorSpec Level) (args : List (Param Level)) (serial : Bool)
      (limits : MemoryLimits) {app : SpecApp Level}
      → logue_app find_position target left right args serial limits ≡ applied app
      → map view_spec (as_views args) ≡ left ∷ right ∷ []
      → IsCopy left right serial app
  unfolding logue_app
  logue_app-IsCopy left right args serial limits h args_eq =
      let (spec, e, h1) =
        unwrapped-bind
          (spec_canonicalize find_position target.memory target.level_lt target.levels _) _ h in
      let (bs, l_eq, _, levels) =
        canonicalize-primitive find_position _ (left.aux ∷ right.aux ∷ []) serial
          (canonical_of _ e) in
      let app_eq = applied_eq h1 in
      subst (IsCopy left right serial) app_eq (args_eq, bs, sym l_eq, levels)

  pub make_logue-IfWanted :
      (flip wanted : Bool) (outer inner : TensorSpec Level) (serial : Bool) (limits : MemoryLimits)
      {o : Option (SpecApp Level)}
      → make_logue find_position target flip wanted outer inner serial limits ≡ applied o
      → IfWanted (if flip then IsCopy inner outer serial else IsCopy outer inner serial) wanted o
        × (is_some o ≡ wanted)
  unfolding make_logue as_views view_spec
  make_logue-IfWanted false false outer inner serial limits h =
      subst (λ o. IfWanted (IsCopy outer inner serial) false o × (is_some o ≡ false)) (applied_eq h)
        (tt, refl)
  make_logue-IfWanted true false outer inner serial limits h =
      subst (λ o. IfWanted (IsCopy inner outer serial) false o × (is_some o ≡ false)) (applied_eq h)
        (tt, refl)
  make_logue-IfWanted false true outer inner serial limits h =
      let (app, e, h1) =
        >>=-eq-applied
          (logue_app find_position target outer inner (params_from 0 (outer ∷ inner ∷ [])) serial
            limits)
          _ h in
      subst (λ o. IfWanted (IsCopy outer inner serial) true o × (is_some o ≡ true)) (applied_eq h1)
        (logue_app-IsCopy outer inner _ serial limits e (view_specs-params 0 _), refl)
  make_logue-IfWanted true true outer inner serial limits h =
      let (app, e, h1) =
        >>=-eq-applied
          (logue_app find_position target inner outer
            (record { index = 1; spec = inner } ∷ record { index = 0; spec = outer } ∷ []) serial
            limits)
          _ h in
      subst (λ o. IfWanted (IsCopy inner outer serial) true o × (is_some o ≡ true)) (applied_eq h1)
        (logue_app-IsCopy inner outer _ serial limits e refl, refl)

  -- What `replace_io` and the canonical form leave of a Spec.
  pub IsOver-canonical :
      (logical : LogicalSpec Level) (operands : List (TensorSpec Level))
      {l inner : LogicalSpec Level}
      → logical_replace_io target.memory (same_tensor_spec target) logical operands ≡ Outcome.done l
      → logical_canonicalize find_position l ≡ Outcome.done (ok inner)
      → IsOver target logical operands inner
  IsOver-canonical (primitive basics auxes serial) operands k h =
      let (b, us, l_eq, p, shapes, typ, dtypes) =
        replaced-shapes target.memory target basics auxes serial operands k in
      let (bs, inner_eq, _, levels) =
        canonicalize-primitive find_position b (map (λ t. t.aux) operands) serial
          (ap (logical_canonicalize find_position) l_eq ∙ h) in
      (b, bs, us, sym inner_eq, typ, dtypes, levels ∙ levels-map operands, p, shapes)
  IsOver-canonical (compose components auxes serial) operands k h =
      let (cs, l_eq) = replaced-compose target components auxes serial operands k in
      absurd (
        canonicalize-compose find_position cs _ serial
          (ap (logical_canonicalize find_position) l_eq ∙ h))

  pub moved_body-IsOver :
      (spec : Spec Level) (operands : List (TensorSpec Level)) (idx : ℕ) (inner : TensorSpec Level)
      (limits : MemoryLimits) {app : SpecApp Level}
      → moved_body find_position target spec operands idx inner limits ≡ applied app
      → (operands_of app ≡ set operands idx inner)
        × IsOver target spec.logical (set operands idx inner) app.spec.logical
  unfolding moved_body
  moved_body-IsOver spec operands idx inner limits h =
      let new_operands = set operands idx inner in
      let (l, k, h1) =
        run-bind
          (logical_replace_io target.memory (same_tensor_spec target) spec.logical new_operands) _
          h in
      let (c, e, h2) =
        unwrapped-bind
          (spec_canonicalize find_position target.memory target.level_lt target.levels _) _ h1 in
      let app_eq = applied_eq h2 in
      (
        ap operands_of (sym app_eq) ∙ view_specs-params 0 new_operands,
        subst (λ (a : SpecApp Level). IsOver target spec.logical new_operands a.spec.logical) app_eq
            (IsOver-canonical spec.logical new_operands k (canonical_of _ e)),
      )
