-- ===== src/TensorSpec/Squeeze.antt =====
-- morello/src/tensorspec.rs, `squeeze_dims`: a tensor without some of its dimensions of size one.
use mathlib.Core.List.{reverse}
use morello.Base.{
  ℕ, zero, suc, ◌+◌, ◌*◌, ◌≡◌, refl, ap, ◌∙◌, sym, Bool, true, ◌&&◌, List, [], ◌∷◌, length, product,
  all_of, ltb, ◌==◌, ==_iff, Outcome, done, ◌>>=◌, ◌>>◌, >>=-eq-done, assert, assert-done, done_eq,
  at, arith, if◌then◌else◌, length-reverse,
}
use morello.Common.{Dtype}
use morello.Layout.{Layout, ok, contiguous_full, row_major}
use morello.Layout.Outcomes.{unwrap_ok, pass_ok}
use morello.Layout.Update.{FindPosition, dim_drop, update_for_tiling}
use morello.Target.{MemoryLevel}
use morello.TensorSpec.{
  TensorSpec, TensorSpecAux, new_noncanon_with_aux, aux_canonicalize, canonicalize, new_canon,
}

-- `Vec::remove`, of an index in range.
unfoldable pub remove : List ℕ → ℕ → List ℕ
remove [] i = []
remove (x ∷ xs) zero = xs
remove (x ∷ xs) (suc i) = x ∷ remove xs i

-- `dropped_dims.windows(2).all(|w| w[0] < w[1])`.
unfoldable pub ascends : List ℕ → Bool
ascends (a ∷ b ∷ dims) = ltb a b && ascends (b ∷ dims)
ascends _ = true

-- The loop over the dropped dimensions, the last one first.
unfoldable pub squeeze_loop : List ℕ → List ℕ → Outcome (List ℕ)
squeeze_loop [] shape = done shape
squeeze_loop (dim ∷ dims) shape = do
  n ← at shape dim
  assert (n == 1)
  squeeze_loop dims (remove shape dim)

-- The layout of a shape of ones; `u8::try_from` bounds its rank.
unfoldable pub squeezed_ones : ℕ → Outcome (Layout × ℕ)
squeezed_ones rank = do
  assert (ltb rank 256)
  layout ← row_major rank
  contig ← contiguous_full layout
  done (layout, contig)

module _ (find_position : FindPosition) {Level : Type 0} (memory : MemoryLevel Level) where
  unfoldable pub squeeze_dims : TensorSpec Level → List ℕ → Outcome (TensorSpec Level)
  squeeze_dims t dropped_dims =
      assert (ascends dropped_dims)
      >> (squeeze_loop (reverse dropped_dims) t.shape >>= λ new_shape.
          (if all_of (λ d. d == 1) new_shape
            then squeezed_ones (length new_shape)
            else dim_drop t.aux.layout dropped_dims t.aux.contig)
          >>= λ layout.
              new_canon find_position memory new_shape t.dtype
                (record t.aux { layout = layout.0; contig = layout.1 }))

product-remove : (xs : List ℕ) (i : ℕ) → at xs i ≡ done 1 → product (remove xs i) ≡ product xs
unfolding remove
product-remove [] i h = cc
product-remove (x ∷ xs) zero h = let e : x ≡ 1 = done_eq h in rw e (omega arith)
product-remove (x ∷ xs) (suc i) h = ap (λ (n : ℕ). x * n) (product-remove xs i h)

length-remove :
    (xs : List ℕ) (i : ℕ) {x : ℕ} → at xs i ≡ done x → suc (length (remove xs i)) ≡ length xs
unfolding remove
length-remove [] i h = cc
length-remove (x ∷ xs) zero h = refl
length-remove (x ∷ xs) (suc i) h = ap suc (length-remove xs i h)

squeeze_loop-kept :
    (dims shape : List ℕ) {squeezed : List ℕ}
    → squeeze_loop dims shape ≡ done squeezed
    → (product squeezed ≡ product shape) × (length squeezed + length dims ≡ length shape)
unfolding squeeze_loop
squeeze_loop-kept [] shape h = rw (sym (done_eq h)) (refl, omega arith)
squeeze_loop-kept (dim ∷ dims) shape h =
    let (n, e, h1) = >>=-eq-done (at shape dim) _ h in
    let (one, h2) = assert-done (n == 1) _ h1 in
    let is_one : n ≡ 1 = (==_iff n 1).0 one in
    let ih = squeeze_loop-kept dims (remove shape dim) h2 in
    (
      ih.0 ∙ product-remove shape dim (e ∙ ap done is_one),
      omega (arith, ih.1, length-remove shape dim e),
    )

-- What canonicalisation leaves as it was.
abbrev pub IsKept : {Level : Type 0} → TensorSpec Level → List ℕ → Dtype → Level → Type 0
IsKept t shape dtype level = (t.shape ≡ shape) × (t.dtype ≡ dtype) × (t.aux.level ≡ level)

module _ (find_position : FindPosition) {Level : Type 0} where
  pub aux_canonicalize-level :
      (aux : TensorSpecAux Level) (shape : List ℕ) {r : TensorSpecAux Level}
      → aux_canonicalize find_position aux shape ≡ done (ok r)
      → r.level ≡ aux.level
  unfolding aux_canonicalize
  aux_canonicalize-level aux shape h =
      let (u, e, h1) =
        >>=-eq-done (update_for_tiling find_position aux.layout shape shape aux.contig) _ h in
      let (p, _, f) = pass_ok u (λ p. record aux { layout = p.0; contig = p.1 }) h1 in
      ap (λ (a : TensorSpecAux Level). a.level) (sym f)

  canonicalize-IsKept :
      (t : TensorSpec Level) {r : TensorSpec Level}
      → canonicalize find_position t ≡ done (ok r)
      → IsKept r t.shape t.dtype t.aux.level
  unfolding canonicalize
  canonicalize-IsKept t h =
      let (u, e, h1) = >>=-eq-done (aux_canonicalize find_position t.aux t.shape) _ h in
      let (a, is_ok, f) = pass_ok u (λ a. record t { aux = a }) h1 in
      let level = aux_canonicalize-level t.aux t.shape (e ∙ ap done is_ok) in
      rw (sym f) (refl, refl, level)

  module _ (memory : MemoryLevel Level) where
    new_noncanon_with_aux-eq :
        (shape : List ℕ) (dtype : Dtype) (aux : TensorSpecAux Level) {t : TensorSpec Level}
        → new_noncanon_with_aux memory shape dtype aux ≡ done t
        → record { shape = shape; dtype = dtype; aux = aux } ≡ t
    unfolding new_noncanon_with_aux
    new_noncanon_with_aux-eq shape dtype aux h = done_eq (assert-done _ _ (assert-done _ _ h).1).1

    pub new_canon-IsKept :
        (shape : List ℕ) (dtype : Dtype) (aux : TensorSpecAux Level) {r : TensorSpec Level}
        → new_canon find_position memory shape dtype aux ≡ done r
        → IsKept r shape dtype aux.level
    unfolding new_canon
    new_canon-IsKept shape dtype aux h =
        let (t, e, h1) = >>=-eq-done (new_noncanon_with_aux memory shape dtype aux) _ h in
        let (u, e1, h2) = >>=-eq-done (canonicalize find_position t) _ h1 in
        let (a, is_ok, f) = unwrap_ok u (λ (a : TensorSpec Level). a) h2 in
        let same = new_noncanon_with_aux-eq shape dtype aux e in
        let (s, d, l) = canonicalize-IsKept t (e1 ∙ ap done is_ok) in
        (
          ap (λ (t : TensorSpec Level). t.shape) (sym f)
              ∙ s
              ∙ ap (λ (t : TensorSpec Level). t.shape) (sym same),
          ap (λ (t : TensorSpec Level). t.dtype) (sym f)
              ∙ d
              ∙ ap (λ (t : TensorSpec Level). t.dtype) (sym same),
          ap (λ (t : TensorSpec Level). t.aux.level) (sym f)
              ∙ l
              ∙ ap (λ (t : TensorSpec Level). t.aux.level) (sym same),
        )

    -- Where `squeeze_dims` returns, the tensor has as many dimensions fewer as are dropped, and
    -- the same number of elements, element type and memory level.
    pub squeeze_dims-kept :
        (t : TensorSpec Level) (dropped_dims : List ℕ) {r : TensorSpec Level}
        → squeeze_dims find_position memory t dropped_dims ≡ done r
        → (product r.shape ≡ product t.shape)
          × (length r.shape + length dropped_dims ≡ length t.shape)
          × (r.dtype ≡ t.dtype)
          × (r.aux.level ≡ t.aux.level)
    unfolding squeeze_dims
    squeeze_dims-kept t dropped_dims h =
        let (_, h1) = assert-done (ascends dropped_dims) _ h in
        let (shape, e, h2) = >>=-eq-done (squeeze_loop (reverse dropped_dims) t.shape) _ h1 in
        let (layout, e1, h3) =
          >>=-eq-done
            (if all_of (λ d. d == 1) shape
              then squeezed_ones (length shape)
              else dim_drop t.aux.layout dropped_dims t.aux.contig)
            _ h2 in
        let kept = squeeze_loop-kept (reverse dropped_dims) t.shape e in
        let (s, d, l) =
          new_canon-IsKept shape t.dtype (record t.aux { layout = layout.0; contig = layout.1 })
            h3 in
        (
          ap product s ∙ kept.0,
          omega (arith, ap (λ (s : List ℕ). length s) s, kept.1, length-reverse dropped_dims),
          d,
          l,
        )
