-- ===== src/TensorSpec/Alignment.antt =====
-- morello/src/alignment.rs, `aligned_approx`: whether the tiles of a tensor start at aligned
-- addresses.
use mathlib.Core.List.{reverse, reverse-append}
use native.Mathlib.Nat.{mul_assoc, div-add-mod, add-mul-mod_self_left}
use morello.Base.{
  ℕ, ◌+◌, ◌*◌, ◌/◌, ◌%◌, ◌^◌, ◌<◌, ◌≡◌, refl, ap, ◌∙◌, sym, Bool, true, false, not, ◌||◌, inl, inr,
  List, [], ◌∷◌, ◌++◌, length, ◌==◌, ==_iff, ==-true, Bool-cases, if◌then◌else◌, u32, Outcome, done,
  ◌>>=◌, ◌>>◌, assert, arith, mod_of_parts,
}
use morello.Common.{size}
use morello.Layout.{Result, ok, err, expand_physical_shape}
use morello.Tiling.{all_equal}
use morello.TensorSpec.{TensorSpec, is_contiguous}

-- The loop over the physical dimensions, the innermost first.
unfoldable pub stride_loop : ℕ → ℕ → List ℕ → Bool
stride_loop line_size stride_bytes [] = true
stride_loop line_size stride_bytes (d ∷ dims) =
    let stride = u32 (stride_bytes * d) in
    let rest = stride_loop line_size stride dims in
    if not (stride % line_size == 0) then false else rest

module _ (line_size : ℕ) {Level : Type 0} where
  unfoldable pub aligned_approx : List ℕ → List ℕ → TensorSpec Level → Outcome (Result Bool)
  aligned_approx tile_shape tile_step_sizes parent = do
    assert (length tile_shape == length tile_step_sizes)
    contiguous ← is_contiguous parent
    if not contiguous || not parent.aux.aligned || not (all_equal tile_shape tile_step_sizes)
        then done (ok false)
        else (expand_physical_shape parent.aux.layout parent.shape >>= λ r. elim r [
          | err e ↦ done (err e)
          | ok physical ↦ done (ok (stride_loop line_size (size parent.dtype) (reverse physical)))
        ])

-- Multiples of the line, on words.
module _ (line q : ℕ) (p : 0 < line) (divides : line * q ≡ 2 ^ 32) where
  u32-mod : (a : ℕ) → u32 a % line ≡ a % line
  u32-mod a =
      let parts = div-add-mod a (2 ^ 32) in
      let split : a ≡ u32 a + line * (q * (a / 2 ^ 32)) =
        omega
          (arith, parts, ap (λ (n : ℕ). n * (a / 2 ^ 32)) divides, mul_assoc line q (a / 2 ^ 32)) in
      sym (ap (λ (n : ℕ). n % line) split ∙ add-mul-mod_self_left (u32 a) line (q * (a / 2 ^ 32)))

  mul-mod_zero : (s d : ℕ) → s % line ≡ 0 → s * d % line ≡ 0
  mul-mod_zero s d h =
      let k = s / line in
      let s_eq : s ≡ line * k = omega (arith, div-add-mod s line, h) in
      let e : s * d ≡ line * (k * d) + 0 =
        ap (λ (n : ℕ). n * d) s_eq ∙ omega (arith, mul_assoc line k d) in
      ap (λ (n : ℕ). n % line) e ∙ mod_of_parts line (k * d) 0 p

  stride_loop-multiple : (s : ℕ) (dims : List ℕ) → s % line ≡ 0 → stride_loop line s dims ≡ true
  unfolding stride_loop
  stride_loop-multiple s [] h = refl
  stride_loop-multiple s (d ∷ dims) h =
      let next : u32 (s * d) % line ≡ 0 = u32-mod (s * d) ∙ mul-mod_zero s d h in
      rw (next, stride_loop-multiple (u32 (s * d)) dims next) refl

  -- The innermost dimension alone decides.
  stride_loop-first :
      (s d : ℕ) (dims : List ℕ) → stride_loop line s (d ∷ dims) ≡ (s * d % line == 0)
  unfolding stride_loop
  stride_loop-first s d dims = elim (Bool-cases (s * d % line == 0)) [
    | inl hit ↦
        let next : u32 (s * d) % line ≡ 0 = u32-mod (s * d) ∙ (==_iff (s * d % line) 0).0 hit in
        rw (next, stride_loop-multiple (u32 (s * d)) dims next, hit) refl
    | inr miss ↦ rw (u32-mod (s * d), miss) refl
  ]

-- Of a contiguous, aligned tensor whose layout expands to sizes of which the innermost is `d`, and
-- a line size that divides 2 ^ 32, every tiling whose steps are its sizes gets the same answer:
-- whether the `d` innermost elements together fill whole lines. The tiles' sizes play no part.
pub aligned_approx-innermost :
    (line q : ℕ) {Level : Type 0} (tile steps : List ℕ) (parent : TensorSpec Level) (outer : List ℕ)
    (d : ℕ)
    → (0 < line) × (line * q ≡ 2 ^ 32)
    → (length tile ≡ length steps) × (all_equal tile steps ≡ true)
    → (is_contiguous parent ≡ done true) × (parent.aux.aligned ≡ true)
    → expand_physical_shape parent.aux.layout parent.shape ≡ done (ok (outer ++ d ∷ []))
    → aligned_approx line tile steps parent ≡ done (ok (size parent.dtype * d % line == 0))
unfolding aligned_approx
aligned_approx-innermost line q tile steps parent outer d (p, dv) (l, s) (c, a) e =
    rw (==-true (length tile) (length steps) l, c, a, s, e, reverse-append outer (d ∷ []))
      (ap (λ (b : Bool). done (ok b))
        (stride_loop-first line q p dv (size parent.dtype) d (reverse outer)))
