-- ===== src/Layout/Outcomes.antt =====
-- Inversion of the results of morello/src/layout.rs: what a run that ends in `ok` went through.
use morello.Base.{◌≡◌, refl, Outcome, done, panic, done_eq}
use morello.Layout.{Result, ok, err}

pub ok_eq : {A : Type 0} {x y : A} → ok x ≡ ok y → x ≡ y
ok_eq h = cc

pub through_ok :
    {A B : Type 0} (r : Result A) (k : A → Outcome (Result B)) {b : B}
    → Path (Outcome (Result B)) (elim r [ err e ↦ done (err e) | ok a ↦ k a ]) (done (ok b))
    → (a : A) × (r ≡ ok a) × (k a ≡ done (ok b))
through_ok (ok a) k h = (a, refl, h)
through_ok (err e) k h = cc

pub unwrap_ok :
    {A B : Type 0} (r : Result A) (f : A → B) {b : B}
    → Path (Outcome B) (elim r [ err _ ↦ panic | ok a ↦ done (f a) ]) (done b)
    → (a : A) × (r ≡ ok a) × (f a ≡ b)
unwrap_ok (ok a) f h = (a, refl, done_eq h)
unwrap_ok (err e) f h = cc

pub pass_ok :
    {A B : Type 0} (r : Result A) (f : A → B) {b : B}
    → Path
        (Outcome (Result B))
        (elim r [ err e ↦ done (err e) | ok a ↦ done (ok (f a)) ])
        (done (ok b))
    → (a : A) × (r ≡ ok a) × (f a ≡ b)
pass_ok (ok a) f h = (a, refl, cc)
pass_ok (err e) f h = cc
