-- ===== src/Layout/SameShape.antt =====
-- morello/src/layout.rs and its callers compare shapes with `==`.
use morello.Base.{ℕ, ◌≡◌, refl, ap₂, true, List, [], ◌∷◌, ◌==◌, ==_iff, and_split, ==-true}
use morello.Layout.Update.{same_shape}

pub same_shape-eq : (a b : List ℕ) → same_shape a b ≡ true → a ≡ b
unfolding same_shape
same_shape-eq [] [] h = refl
same_shape-eq [] (y ∷ b) h = cc
same_shape-eq (x ∷ a) [] h = cc
same_shape-eq (x ∷ a) (y ∷ b) h =
    let (e, r) = and_split (x == y) (same_shape a b) h in
    ap₂ ◌∷◌ ((==_iff x y).0 e) (same_shape-eq a b r)

pub same_shape_refl : (a : List ℕ) → same_shape a a ≡ true
unfolding same_shape
same_shape_refl [] = refl
same_shape_refl (x ∷ a) = rw (==-true x x refl) (same_shape_refl a)
