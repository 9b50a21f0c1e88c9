-- ===== src/Grid.antt =====
-- morello/src/grid/: maps between values and grid coordinates, and the `Dtype` bimap of
-- morello/src/common.rs.
--
-- A `SurMap` is its two functions; the iterator of an inverse is the list of what it yields.
pub mod Maps
mod Tests
use morello.Base.{
  ℕ, zero, suc, ◌+◌, ◌-◌, ◌*◌, ◌/◌, ◌^◌, Bool, true, false, not, Option, none, some, List, [], ◌∷◌,
  ◌++◌, length, ◌==◌, leb, ltb, if◌then◌else◌, u32, Outcome, done, panic, ◌>>=◌, ◌>>◌, assert,
}

pub record SurMap (D C : Type 0) : Type 0 where
  pub apply : D → C
  pub apply_inverse : C → List D

pub record BiMap (D C : Type 0) : Type 0 where
  pub bi_apply : D → C
  pub bi_apply_inverse : C → D

-- Every BiMap is a SurMap, whose inverse yields once.
unfoldable pub sur_of_bi : {D C : Type 0} → BiMap D C → SurMap D C
sur_of_bi b = record { apply = b.bi_apply; apply_inverse = λ i. b.bi_apply_inverse i ∷ [] }

-- `BimapEnforcer`: the one value of the inverse; a second one fails the debug assertion.
unfoldable pub enforce_inverse : {D C : Type 0} → SurMap D C → C → Outcome D
enforce_inverse m i = elim (m.apply_inverse i) [
  | [] ↦ panic
  | d ∷ rest ↦ elim rest [ [] ↦ done d | _ ∷ _ ↦ panic ]
]

-- `cartesian_product` of what two inverses yield.
unfoldable pub pair_all : {A B : Type 0} → A → List B → List (A × B)
pair_all a [] = []
pair_all a (b ∷ bs) = (a, b) ∷ pair_all a bs

unfoldable pub cartesian_product : {A B : Type 0} → List A → List B → List (A × B)
cartesian_product [] bs = []
cartesian_product (a ∷ xs) bs = pair_all a bs ++ cartesian_product xs bs

unfoldable pub tuple_map :
    {D₁ C₁ D₂ C₂ : Type 0} → SurMap D₁ C₁ → SurMap D₂ C₂ → SurMap (D₁ × D₂) (C₁ × C₂)
tuple_map m n = record {
  apply = λ t. (m.apply t.0, n.apply t.1);
  apply_inverse = λ i. cartesian_product (m.apply_inverse i.0) (n.apply_inverse i.1);
}

-- `ComposeDomainIter`: active, with what the inner and the outer iterator still hold, or done.
pub data ComposeDomainIter (D B : Type 0) : Type 0 where
  active : List B → List D → ComposeDomainIter D B
  finished : ComposeDomainIter D B

unfoldable pub compose_iter : {D B C : Type 0} → SurMap D B → SurMap B C → C → ComposeDomainIter D B
compose_iter a b initial_co = elim (b.apply_inverse initial_co) [
  | [] ↦ finished
  | first ∷ inner_iter ↦ active inner_iter (a.apply_inverse first)
]

-- The loop of `next`: the outer iterator first, then the inverse of the next inner value.
unfoldable pub next_loop :
    {D B : Type 0} → SurMap D B → List B → List D → Option D × ComposeDomainIter D B
next_loop a inner (d ∷ outer) = (some d, active inner outer)
next_loop a [] [] = (none, finished)
next_loop a (b ∷ inner) [] = next_loop a inner (a.apply_inverse b)
