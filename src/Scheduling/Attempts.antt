-- ===== src/Scheduling/Attempts.antt =====
-- Inversion of attempts: what an action that applies went through.
use morello.Base.{◌≡◌, refl, ap, Bool, true, false, Outcome}
use morello.Layout.{Result, ok, err}
use morello.Scheduling.{
  ApplyError, Attempt, applied, refused, panicked, ◌>>=◌, ◌>>◌, run, demand, refuse_if, unwrapped,
  tile_or_refuse,
}

pub >>=-eq-applied {ℓ κ} :
    {A : Type ℓ} {B : Type κ} (m : Attempt A) (f : A → Attempt B) {b : B}
    → (m >>= f) ≡ applied b
    → (a : A) × (m ≡ applied a) × (f a ≡ applied b)
>>=-eq-applied (applied a) f h = (a, refl, h)
>>=-eq-applied (refused e) f h = cc
>>=-eq-applied panicked f h = cc

pub applied_eq {ℓ} : {A : Type ℓ} {x y : A} → applied x ≡ applied y → x ≡ y
applied_eq h = cc

pub run-eq : {A : Type 0} (m : Outcome A) {a : A} → run m ≡ applied a → m ≡ Outcome.done a
run-eq (Outcome.done x) h = ap Outcome.done (applied_eq h)
run-eq Outcome.panic h = cc

pub run-bind {κ} :
    {A : Type 0} {B : Type κ} (m : Outcome A) (f : A → Attempt B) {b : B}
    → (run m >>= f) ≡ applied b
    → (a : A) × (m ≡ Outcome.done a) × (f a ≡ applied b)
run-bind (Outcome.done a) f h = (a, refl, h)
run-bind Outcome.panic f h = cc

pub demand-bind {κ} :
    {B : Type κ} (c : Bool) (k : Attempt B) {b : B}
    → (demand c >> k) ≡ applied b
    → (c ≡ true) × (k ≡ applied b)
demand-bind true k h = (refl, h)
demand-bind false k h = cc

pub refuse_if-bind {κ} :
    {B : Type κ} (c : Bool) (e : ApplyError) (k : Attempt B) {b : B}
    → (refuse_if c e >> k) ≡ applied b
    → (c ≡ false) × (k ≡ applied b)
refuse_if-bind true e k h = cc
refuse_if-bind false e k h = (refl, h)

pub unwrapped-eq :
    {A : Type 0} (m : Outcome (Result A)) {a : A}
    → unwrapped m ≡ applied a
    → m ≡ Outcome.done (ok a)
unwrapped-eq (Outcome.done (ok x)) h = ap (λ a. Outcome.done (ok a)) (applied_eq h)
unwrapped-eq (Outcome.done (err e)) h = cc
unwrapped-eq Outcome.panic h = cc

pub unwrapped-bind {κ} :
    {A : Type 0} {B : Type κ} (m : Outcome (Result A)) (f : A → Attempt B) {b : B}
    → (unwrapped m >>= f) ≡ applied b
    → (a : A) × (m ≡ Outcome.done (ok a)) × (f a ≡ applied b)
unwrapped-bind (Outcome.done (ok a)) f h = (a, refl, h)
unwrapped-bind (Outcome.done (err e)) f h = cc
unwrapped-bind Outcome.panic f h = cc

pub tile_or_refuse-bind {κ} :
    {A : Type 0} {B : Type κ} (m : Outcome (Result A)) (f : A → Attempt B) {b : B}
    → (tile_or_refuse m >>= f) ≡ applied b
    → (a : A) × (m ≡ Outcome.done (ok a)) × (f a ≡ applied b)
tile_or_refuse-bind (Outcome.done (ok a)) f h = (a, refl, h)
tile_or_refuse-bind (Outcome.done (err e)) f h = cc
tile_or_refuse-bind Outcome.panic f h = cc
