-- ===== src/Layout/Merge.antt =====
-- morello/src/layout.rs: what `Layout::new` does to the dimensions it accepts.
use mathlib.Core.List.{reverse, reverse-append}
use morello.Base.{
  assert-done, ℕ, suc, ◌-◌, ◌≡◌, refl, ap, ◌∙◌, sym, inl, inr, Bool, true, false, not, ◌&&◌, List,
  [], ◌∷◌, ◌++◌, length, ◌==◌, ==_iff, leb, if◌then◌else◌, Bool-cases, Outcome, done, panic, ◌>>=◌,
  >>=-eq-done, snoc_assoc, all_of,
}
use morello.Layout.{
  PhysDim, dynamic, packed, odd_even, Dim, Layout, merge_loop, merge_consecutive_dimensions,
  no_consecutive, contiguous_full, new, dynamic_first, all_mentioned, is_proper,
}

-- To push a dimension moves it from the rest to what is built.
push_built :
    (last next : Dim) (pushed rest : List Dim)
    → reverse (last ∷ pushed) ++ next ∷ rest ≡ reverse pushed ++ last ∷ next ∷ rest
push_built last next pushed rest =
    rw (reverse-append (last ∷ []) pushed, snoc_assoc (reverse pushed) last (next ∷ rest)) refl

apart : (a b : Bool) → (a && b) ≡ true → (a ≡ true) × (b ≡ true)
apart true b h = (refl, h)
apart false b h = cc

if_same {ℓ} : {A : Type ℓ} (b : Bool) (m : A) {r : A} → (if b then m else m) ≡ r → m ≡ r
if_same true m h = h
if_same false m h = h

if_done {ℓ} :
    {A : Type ℓ} (b : Bool) (m : Outcome A) {r : A} → if◌then◌else◌ b m panic ≡ done r → m ≡ done r
if_done true m h = h
if_done false m h = cc

merge_loop-kept :
    (first idx : ℕ) (last : Dim) (pushed : List Dim) (contig : ℕ) (dims : List Dim)
    {result : List Dim × ℕ}
    → no_consecutive (last ∷ dims) ≡ true
    → merge_loop first idx last pushed contig dims ≡ done result
    → result ≡ (reverse pushed ++ last ∷ dims, contig)
unfolding merge_loop no_consecutive
merge_loop-kept first idx last pushed contig [] {result} ok h =
    let e : (reverse (last ∷ pushed), contig) ≡ result = cc h in
    sym e ∙ rw (reverse-append (last ∷ []) pushed) refl
merge_loop-kept first idx (d, p) pushed contig ((e, q) ∷ dims) {result} ok h =
    let pushes : merge_loop first (suc idx) (e, q) ((d, p) ∷ pushed) contig dims ≡ done result
        → result ≡ (reverse pushed ++ (d, p) ∷ (e, q) ∷ dims, contig) =
      λ h'.
        merge_loop-kept first (suc idx) (e, q) ((d, p) ∷ pushed) contig dims (apart _ _ ok).1 h'
        ∙ ap (λ l. (l, contig)) (push_built (d, p) (e, q) pushed dims) in
    pushes (merge_loop-pushes p q ok h)
  where
    merge_loop-pushes :
        (p q : PhysDim)
        → no_consecutive ((d, p) ∷ (e, q) ∷ dims) ≡ true
        → merge_loop first idx (d, p) pushed contig ((e, q) ∷ dims) ≡ done result
        → merge_loop first (suc idx) (e, q) ((d, p) ∷ pushed) contig dims ≡ done result
    merge_loop-pushes dynamic dynamic ok h = if_done (not (e == d)) _ h
    merge_loop-pushes dynamic (packed n) ok h = if_same (not (e == d)) _ h
    merge_loop-pushes dynamic (odd_even n) ok h = if_same (not (e == d)) _ h
    merge_loop-pushes (packed l) dynamic ok h = if_same (not (e == d)) _ h
    merge_loop-pushes (packed l) (packed n) ok h = elim (Bool-cases (e == d)) [
      | inl same ↦
          let twice : (d == e) ≡ true = (==_iff d e).1 (sym ((==_iff e d).0 same)) in
          absurd (let o = rw twice at ok in cc o)
      | inr differ ↦ rw differ at h
    ]
    merge_loop-pushes (packed l) (odd_even n) ok h = if_same (not (e == d)) _ h
    merge_loop-pushes (odd_even l) dynamic ok h = if_same (not (e == d)) _ h
    merge_loop-pushes (odd_even l) (packed n) ok h = if_same (not (e == d)) _ h
    merge_loop-pushes (odd_even l) (odd_even n) ok h = if_done (not (e == d)) _ h

-- A layout that passes the checks of `Layout::new` is kept as it is given: its consecutive
-- dimensions are never merged.
pub new-kept : (dims : List Dim) {l : Layout} → new dims ≡ done l → l ≡ dims
unfolding new merge_consecutive_dimensions
new-kept [] h = cc
new-kept (d ∷ dims) {l} h =
    let (_, h1) = assert-done (dynamic_first [] (d ∷ dims) && all_mentioned (d ∷ dims)) _ h in
    let (checked, h2) =
      assert-done (no_consecutive (d ∷ dims) && all_of (λ d. is_proper d.1) (d ∷ dims)) _ h1 in
    let (full, _, h3) =
      >>=-eq-done (contiguous_full (d ∷ dims))
        (λ full. merge_consecutive_dimensions (d ∷ dims) full >>= λ merged. done merged.0) h2 in
    let (merged, m, h4) =
      >>=-eq-done (merge_consecutive_dimensions (d ∷ dims) full) (λ merged. done merged.0) h3 in
    let (_, m1) = assert-done (leb full (length (d ∷ dims))) _ m in
    let e = merge_loop-kept (length (d ∷ dims) - full) 0 d [] full dims (apart _ _ checked).0 m1 in
    let f : merged.0 ≡ l = cc h4 in sym f ∙ ap (λ m. m.0) e
