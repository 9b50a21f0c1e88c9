-- ===== src/Layout/Contig.antt =====
-- morello/src/layout.rs: the contiguous suffix of a tile's layout, and swapped dimensions.
use mathlib.Core.List.{reverse}
use morello.Base.{
  ℕ, zero, suc, ◌+◌, ◌≤◌, ◌≡◌, ◌≢◌, refl, ap, ap₂, sym, ◌∙◌, Bool, true, not, List, [], ◌∷◌, map,
  length, get_elem?, some, Option-cases, inl, inr, All, ◌==◌, ==_iff, ==-true, Bool-cases, done,
  ◌>>=◌, >>=-eq-done, arith,
}
use morello.Layout.{Dim, Layout, ok, expand_physical_shape, new}
use morello.Layout.Merge.{new-kept}
use morello.Layout.Update.{
  take, zip, increase_loop, swap_dim, swap_dims, FindPosition,
  lower_contig_to_first_broken_dimension,
}

-- The contiguous suffix grows by as many dimensions as have size 1 directly outside it, and no
-- more: the next dimension, if there is one, has another size.
pub increase_loop-longest :
    (sizes : List ℕ) (contig : ℕ)
    → (n : ℕ) × (increase_loop sizes contig ≡ contig + n)
      × (All (λ s. s ≡ 1) (take n sizes) × (get_elem? sizes n ≢ some 1))
unfolding increase_loop
increase_loop-longest [] contig = (zero, omega arith, (tt, λ e. cc e))
increase_loop-longest (s ∷ sizes) contig = elim (Bool-cases (s == 1)) [
  | inl unit ↦
      let (n, grown, (ones, stops)) = increase_loop-longest sizes (suc contig) in
      (suc n, rw unit (omega (arith, grown)), (((==_iff s 1).0 unit, ones), stops))
  | inr larger ↦ (zero, rw larger (omega arith), (tt, λ e. let f : s ≡ 1 = cc e in ground arith))
]

swap_dim_twice : (ab : ℕ × ℕ) (d : Dim) → swap_dim ab (swap_dim ab d) ≡ d
unfolding swap_dim
swap_dim_twice (a, b) (d, p) = ground arith

swap_all_twice : (ab : ℕ × ℕ) (dims : List Dim) → map (swap_dim ab) (map (swap_dim ab) dims) ≡ dims
swap_all_twice ab [] = refl
swap_all_twice ab (d ∷ dims) = ap₂ (λ x xs. x ∷ xs) (swap_dim_twice ab d) (swap_all_twice ab dims)

-- To swap the same two dimensions again gives back a layout that `Layout::new` accepts, with its
-- contiguous suffix.
pub swap_dims_twice :
    (dims : Layout) (ab : ℕ × ℕ) (contig : ℕ) {r : Layout × ℕ}
    → new dims ≡ done dims
    → swap_dims dims ab contig ≡ done r
    → swap_dims r.0 ab r.1 ≡ done (dims, contig)
unfolding swap_dims
swap_dims_twice dims ab contig {r} valid h =
    let (l, made, e) =
      >>=-eq-done (new (map (swap_dim ab) dims)) (λ layout. done (layout, contig)) h in
    let kept = new-kept (map (swap_dim ab) dims) made in
    let same : (l, contig) ≡ r = cc e in
    ap (λ x. swap_dims x.0 ab x.1) (sym same)
    ∙ ap (λ m. swap_dims m ab contig) kept
    ∙ ap (λ ds. new ds >>= λ layout. done (layout, contig)) (swap_all_twice ab dims)
    ∙ ap (λ m. m >>= λ layout. done (layout, contig)) valid

-- The documented behaviour of `find_position`: what it finds is in the list and satisfies the test.
abbrev pub IsFound : FindPosition → Type 0
IsFound find_position =
    (test : ℕ × ℕ → Bool) (xs : List (ℕ × ℕ)) (r : ℕ × (ℕ × ℕ))
    → find_position test xs ≡ some r
    → (test r.1 ≡ true) × (get_elem? xs r.0 ≡ some r.1)

zip-diagonal : (xs : List ℕ) (i : ℕ) {r : ℕ × ℕ} → get_elem? (zip xs xs) i ≡ some r → r.0 ≡ r.1
zip-diagonal [] i h = absurd (cc h)
zip-diagonal (x ∷ xs) zero {r} h = let e : (x, x) ≡ r = cc h in rw (← e) refl
zip-diagonal (x ∷ xs) (suc i) h = zip-diagonal xs i h

-- Where the tile has its parent's shape, the contiguous suffix stays as it is, as the assertion of
-- `update_for_tiling` demands.
pub lower_contig_to_first_broken_dimension-same :
    (find_position : FindPosition)
    → IsFound find_position
    → (dims : Layout) (shape : List ℕ) (contig : ℕ) {physical : List ℕ}
    → expand_physical_shape dims shape ≡ done (ok physical)
    → contig ≤ length dims
    → lower_contig_to_first_broken_dimension find_position dims shape shape contig
      ≡ done (ok contig)
unfolding lower_contig_to_first_broken_dimension
lower_contig_to_first_broken_dimension-same find_position found dims shape contig {physical} e h =
    let test = λ (x : ℕ × ℕ). not (x.0 == x.1) in
    let pairs = zip (reverse physical) (reverse physical) in
    elim (Option-cases (find_position test pairs)) [
      | inl none_found ↦
          rw (e, e, ==-true (length physical) (length physical) refl, none_found)
            (ap (λ n. done (ok n)) (omega arith))
      | inr (r, here) ↦
          let (differs, at_r) = found test pairs r here in
          let same = zip-diagonal (reverse physical) r.0 at_r in
          absurd (let t = ==-true r.1.0 r.1.1 same in let d = rw t at differs in cc d)
    ]
