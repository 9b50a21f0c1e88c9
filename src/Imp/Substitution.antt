-- ===== src/Imp/Substitution.antt =====
-- morello/src/search.rs, `compute_impl_cost`: the cost of a tree whose Specs are implemented.
use morello.Base.{
  Bool, true, ◌≡◌, refl, ap, ◌∙◌, sym, List, [], ◌∷◌, ◌++◌, map, Outcome, done, panic, ◌>>=◌, ℕ,
}
use morello.Cost.{Cost}
use morello.Imp.{
  ImplNode, spec_app, node, ImplNodes, leaf, child, from_impl, from_impls, from_child_costs,
  compute_impl_cost, compute_impl_costs, visit_subspecs, visit_children,
}

module _ {S T : Type 0} (f : S → ImplNode T) where
  -- The tree with every Spec application replaced by an implementation of the Spec.
  unfoldable mutual
    pub substitute : ImplNode S → ImplNode T
    substitute (spec_app s) = f s
    substitute (node own children) = node own (substitute_all children)

    pub substitute_all : ImplNodes S → ImplNodes T
    substitute_all leaf = leaf
    substitute_all (child k children) = child (substitute k) (substitute_all children)

-- The Specs of a tree, from left to right.
module _ {S : Type 0} where
  unfoldable mutual
    pub specs : ImplNode S → List S
    specs (spec_app s) = s ∷ []
    specs (node own children) = specs_of children

    pub specs_of : ImplNodes S → List S
    specs_of leaf = []
    specs_of (child k children) = specs k ++ specs_of children

-- What the costs of the children still have to give the parent.
abbrev with_rest {ℓ} : {A : Type ℓ} → Outcome A → List Cost → Outcome (A × List Cost)
with_rest m rest = m >>= λ c. done (c, rest)

map-append : {A : Type 0} (g : A → Cost) (xs ys : List A) → map g (xs ++ ys) ≡ map g xs ++ map g ys
map-append g [] ys = refl
map-append g (x ∷ xs) ys = ap (λ zs. g x ∷ zs) (map-append g xs ys)

append_assoc : (xs ys zs : List Cost) → (xs ++ ys) ++ zs ≡ xs ++ (ys ++ zs)
append_assoc [] ys zs = refl
append_assoc (x ∷ xs) ys zs = ap (λ l. x ∷ l) (append_assoc xs ys zs)

parent_of :
    (m : Outcome (List Cost)) (g : List Cost → Outcome Cost) (rest : List Cost)
    → (with_rest m rest >>= λ r. g r.0 >>= λ c. done (c, r.1)) ≡ with_rest (m >>= g) rest
parent_of panic g rest = refl
parent_of (done cs) g rest = refl

children_of :
    (m : Outcome Cost) (m' : Outcome (List Cost)) (later rest : List Cost)
    (g : List Cost → Outcome (List Cost × List Cost))
    → g later ≡ with_rest m' rest
    → (with_rest m later >>= λ r. g r.1 >>= λ rs. done (r.0 ∷ rs.0, rs.1))
      ≡ with_rest (m >>= λ c. m' >>= λ cs. done (c ∷ cs)) rest
children_of panic m' later rest g e = refl
children_of (done c) panic later rest g e = rw e refl
children_of (done c) (done cs) later rest g e = rw e refl

module _ (div_ceil : ℕ → ℕ → ℕ) (processors : ℕ) {S T : Type 0} (f : S → ImplNode T)
    (cost : S → Cost) (each : (s : S) → from_impl div_ceil processors (f s) ≡ done (cost s)) where
  mutual
    unfolding compute_impl_cost from_impl substitute specs

    compute_impl_cost-rest :
        (imp : ImplNode S) (rest : List Cost)
        → compute_impl_cost div_ceil processors imp (map cost (specs imp) ++ rest)
          ≡ with_rest (from_impl div_ceil processors (substitute f imp)) rest
    compute_impl_cost-rest (spec_app s) rest = sym (ap (λ m. with_rest m rest) (each s))
    compute_impl_cost-rest (node own children) rest = rw (compute_impl_costs-rest children rest) (
        parent_of (from_impls div_ceil processors (substitute_all f children))
          (from_child_costs div_ceil processors own) rest)

    compute_impl_costs-rest :
        (children : ImplNodes S) (rest : List Cost)
        → compute_impl_costs div_ceil processors children (map cost (specs_of children) ++ rest)
          ≡ with_rest (from_impls div_ceil processors (substitute_all f children)) rest
    compute_impl_costs-rest leaf rest = refl
    compute_impl_costs-rest (child k children) rest =
        let later = map cost (specs_of children) ++ rest in
        let split : map cost (specs k ++ specs_of children) ++ rest ≡ map cost (specs k) ++ later =
          ap (λ l. l ++ rest) (map-append cost (specs k) (specs_of children))
          ∙ append_assoc (map cost (specs k)) (map cost (specs_of children)) rest in
        rw (split, compute_impl_cost-rest k later)
          (children_of (from_impl div_ceil processors (substitute f k))
            (from_impls div_ceil processors (substitute_all f children)) later rest
            (compute_impl_costs div_ceil processors children)
            (compute_impl_costs-rest children rest))

-- `compute_impl_cost` gives a tree, with the costs of its Specs' implementations, the cost that
-- `Cost::from_impl` gives the tree with these implementations put in, and panics where that does.
pub compute_impl_cost-substitute :
    (div_ceil : ℕ → ℕ → ℕ) (processors : ℕ) {S T : Type 0} (f : S → ImplNode T) (cost : S → Cost)
    → ((s : S) → from_impl div_ceil processors (f s) ≡ done (cost s))
    → (imp : ImplNode S) (rest : List Cost)
    → compute_impl_cost div_ceil processors imp (map cost (specs imp) ++ rest)
      ≡ (from_impl div_ceil processors (substitute f imp) >>= λ c. done (c, rest))
compute_impl_cost-substitute div_ceil processors f cost each imp rest =
    compute_impl_cost-rest div_ceil processors f cost each imp rest

module _ {S : Type 0} where
  list_assoc : (xs ys zs : List S) → (xs ++ ys) ++ zs ≡ xs ++ (ys ++ zs)
  list_assoc [] ys zs = refl
  list_assoc (x ∷ xs) ys zs = ap (λ l. x ∷ l) (list_assoc xs ys zs)

  append_nil : (xs : List S) → xs ++ [] ≡ xs
  append_nil [] = refl
  append_nil (x ∷ xs) = ap (λ l. x ∷ l) (append_nil xs)

  -- The visitor that `SpecTask::start` passes.
  abbrev pub push : S → List S → List S × Bool
  push s acc = (acc ++ s ∷ [], true)

  mutual
    unfolding visit_subspecs specs

    visit_subspecs-push :
        (imp : ImplNode S) (acc : List S) → visit_subspecs push imp acc ≡ (acc ++ specs imp, true)
    visit_subspecs-push (spec_app s) acc = refl
    visit_subspecs-push (node own children) acc = visit_children-push children acc

    visit_children-push :
        (children : ImplNodes S) (acc : List S)
        → visit_children push children acc ≡ (acc ++ specs_of children, true)
    visit_children-push leaf acc = ap (λ l. (l, true)) (sym (append_nil acc))
    visit_children-push (child k children) acc =
        rw (visit_subspecs-push k acc, visit_children-push children (acc ++ specs k))
          (ap (λ l. (l, true)) (list_assoc acc (specs k) (specs_of children)))

-- The traversal of `visit_subspecs` with a visitor that pushes and never stops reaches every Spec
-- application of the tree once, from left to right.
pub visit_subspecs-eq-specs :
    {S : Type 0} (imp : ImplNode S) → visit_subspecs push imp [] ≡ (specs imp, true)
visit_subspecs-eq-specs imp = visit_subspecs-push imp []
