-- ===== src/NdArray/Writes.antt =====
-- morello/src/ndarray.rs: the offsets of different points differ, and a write changes one point.
use native.Mathlib.Nat.{mul-le-mul_right}
use morello.Base.{
  ℕ, suc, ◌+◌, ◌*◌, ◌/◌, ◌%◌, ◌<◌, ◌≤◌, ◌≡◌, ◌≢◌, refl, ap, ap₂, ◌∙◌, sym, subst, true, false, none,
  some, List, [], ◌∷◌, length, product, get_elem?-set_self, get_elem?-set_ne, length-set, set, at,
  Bool-cases, inl, inr, ==-true, if◌then◌else◌, Outcome, done, div_of_parts, mod_of_parts, arith,
}
use morello.Layout.Update.{same_shape}
use morello.Layout.SameShape.{same_shape-eq, same_shape_refl}
use morello.NdArray.{RleVec, IsRleVec, NdArray, calculate_strides, dot, data_offset, get, set_pt}
use morello.NdArray.Positions.{IsIn, IsIn-length, IsArray, calculate_strides-cons}

below_product : (i d p r : ℕ) → i < d → r < p → i * p + r < d * p
below_product i d p r h k =
    let more : suc i * p ≡ i * p + p = grind arith in
    let up : suc i * p ≤ d * p = mul-le-mul_right p h in omega (arith, more, up, k)

-- The offset of a point lies within the array.
pub dot-IsIn :
    (pt shape : List ℕ) → IsIn pt shape → dot pt (calculate_strides shape) < product shape
unfolding dot
dot-IsIn [] [] h = omega arith
dot-IsIn [] (d ∷ shape) h = absurd h
dot-IsIn (i ∷ pt) [] h = absurd h
dot-IsIn (i ∷ pt) (d ∷ shape) (lt, h) =
    rw (calculate_strides-cons d shape)
      (below_product i d (product shape) _ lt (dot-IsIn pt shape h))

same_parts : (p i j a b : ℕ) → a < p → b < p → i * p + a ≡ j * p + b → (i ≡ j) × (a ≡ b)
same_parts p i j a b h k e =
    let f : p * i + a ≡ p * j + b = grind arith in
    (
      sym (div_of_parts p i a h) ∙ ap (λ (n : ℕ). n / p) f ∙ div_of_parts p j b k,
      sym (mod_of_parts p i a h) ∙ ap (λ (n : ℕ). n % p) f ∙ mod_of_parts p j b k,
    )

-- Different points of a shape have different offsets.
pub dot_injective :
    (p q shape : List ℕ)
    → IsIn p shape
    → IsIn q shape
    → dot p (calculate_strides shape) ≡ dot q (calculate_strides shape)
    → p ≡ q
unfolding dot
dot_injective [] [] shape h k e = refl
dot_injective [] (j ∷ q) [] h k e = absurd k
dot_injective [] (j ∷ q) (d ∷ shape) h k e = absurd h
dot_injective (i ∷ p) [] [] h k e = absurd h
dot_injective (i ∷ p) [] (d ∷ shape) h k e = absurd k
dot_injective (i ∷ p) (j ∷ q) [] h k e = absurd h
dot_injective (i ∷ p) (j ∷ q) (d ∷ shape) (_, h) (_, k) e =
    let (f, g) =
      same_parts (product shape) i j _ _ (dot-IsIn p shape h) (dot-IsIn q shape k)
        (rw (calculate_strides-cons d shape) at e) in
    ap₂ (λ (n : ℕ) (l : List ℕ). n ∷ l) f (dot_injective p q shape h k g)

module _ (R : RleVec) (laws : IsRleVec R) {T : Type 0} where
  offset_done :
      (a : NdArray R T) (pt : List ℕ)
      → IsIn pt a.shape
      → data_offset R a pt ≡ done (dot pt a.strides)
  unfolding data_offset
  offset_done a pt h = rw (==-true (length pt) (length a.shape) (IsIn-length pt a.shape h)) refl

  get-at :
      (a : NdArray R T) (pt : List ℕ)
      → IsIn pt a.shape
      → get R a pt ≡ at (R.iter a.cells) (dot pt a.strides)
  unfolding get
  get-at a pt h = rw (offset_done a pt h) refl

  abbrev written : NdArray R T → List ℕ → T → NdArray R T
  written a pt v = record a { cells = R.set a.cells (dot pt a.strides) v }

  -- After `set_pt` at a point of an array with the strides of its shape and as many cells as the
  -- shape has points, which does not panic, the array is such an array of the same shape, and it
  -- holds the new value at that point and what it held before at every other.
  pub get-set_pt :
      (a : NdArray R T) (pt q : List ℕ) (v : T)
      → IsArray R a
      → IsIn pt a.shape
      → IsIn q a.shape
      → (b : NdArray R T) × (set_pt R a pt v ≡ done b)
        × IsArray R b
        × (b.shape ≡ a.shape)
        × (get R b q ≡ (if same_shape pt q then done v else get R a q))
  unfolding set_pt IsArray
  get-set_pt a pt q v (strides, cells) h k = (
    written a pt v,
    rw (offset_done a pt h) refl,
    (strides, ap length set_cells ∙ length-set (R.iter a.cells) _ v ∙ cells),
    refl,
    elim (Bool-cases (same_shape pt q)) [
      | inl same ↦ rw same (get-at (written a pt v) q k ∙ at_same same)
      | inr differ ↦ rw differ (get-at (written a pt v) q k ∙ at_other differ ∙ sym (get-at a q k))
    ],
  )
    where
      inside : dot pt a.strides < length (R.iter a.cells)
      inside = rw (strides, cells) (dot-IsIn pt a.shape h)

      set_cells :
          R.iter (R.set a.cells (dot pt a.strides) v) ≡ set (R.iter a.cells) (dot pt a.strides) v
      set_cells = laws.iter_set a.cells (dot pt a.strides) v inside

      at_same :
          same_shape pt q ≡ true
          → at (R.iter (R.set a.cells (dot pt a.strides) v)) (dot q a.strides) ≡ done v
      at_same same =
          ap₂ (λ l (i : ℕ). at l i) set_cells
            (ap (λ p. dot p a.strides) (sym (same_shape-eq pt q same)))
          ∙ ap (λ o. elim o [ none ↦ Outcome.panic | some y ↦ done y ])
              (get_elem?-set_self (R.iter a.cells) (dot pt a.strides) v inside)

      apart : same_shape pt q ≡ false → dot pt a.strides ≢ dot q a.strides
      apart differ e =
          let same : pt ≡ q =
            dot_injective pt q a.shape h k (subst (λ l. dot pt l ≡ dot q l) strides e) in
          let clash : true ≡ false = sym (same_shape_refl pt) ∙ ap (same_shape pt) same ∙ differ in
          cc

      at_other :
          same_shape pt q ≡ false
          → at (R.iter (R.set a.cells (dot pt a.strides) v)) (dot q a.strides)
            ≡ at (R.iter a.cells) (dot q a.strides)
      at_other differ =
          ap (λ l. at l (dot q a.strides)) set_cells
          ∙ ap (λ o. elim o [ none ↦ Outcome.panic | some y ↦ done y ])
              (get_elem?-set_ne (R.iter a.cells) (dot pt a.strides) (dot q a.strides) v
                (apart differ))
