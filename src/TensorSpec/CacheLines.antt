-- ===== src/TensorSpec/CacheLines.antt =====
-- morello/src/layout.rs, `estimate_cache_lines`: the cache lines that a tensor's move touches.
use native.Mathlib.Nat.{div-add-mod, add-mul-mod_self_left, mul-le-mul_left, mul-le-mul_right}
use morello.Base.{
  ℕ, zero, suc, ◌≤◌, IsDivCeil, ◌+◌, ◌-◌, ◌*◌, ◌/◌, ◌^◌, ◌<◌, ◌≡◌, refl, ap, ◌∙◌, sym, List, [],
  ◌∷◌, length, product, All, leb, le→leb, u32, u32_of_lt, Outcome, done, ◌>>=◌, ◌>>◌, assert, arith,
}
use morello.Layout.{ok, Layout, expand_physical_shape, expanded}
use morello.Layout.Expand.{expand_physical_shape-product}
use morello.Layout.Update.{take, drop}
use morello.TensorSpec.{product_u32}

-- `estimate_cache_lines`, by the size of the element type and the `div_ceil` of `divrem`.
module _ (div_ceil : ℕ → ℕ → ℕ) (line_size : ℕ) where
  unfoldable pub estimate_cache_lines : Layout → List ℕ → ℕ → ℕ → Outcome ℕ
  estimate_cache_lines dims shape dtype_size contig = do
    assert (leb contig (length dims))
    physical ← expanded dims shape
    done (
        u32 (
          u32 (product_u32 (take (length dims - contig) physical) * dtype_size)
          * div_ceil (u32 (product_u32 (drop (length dims - contig) physical) * dtype_size))
              line_size))

u32-mul : (d m : ℕ) → u32 (d * u32 m) ≡ u32 (d * m)
u32-mul d m =
    let split : d * m ≡ d * u32 m + 2 ^ 32 * (d * (m / 2 ^ 32)) =
      ap (λ (n : ℕ). d * n) (sym (div-add-mod m (2 ^ 32))) ∙ omega arith in
    sym (ap u32 split ∙ add-mul-mod_self_left (d * u32 m) (2 ^ 32) (d * (m / 2 ^ 32)))

-- The wrapping product is the product, wrapped.
product_u32-eq-u32 : (xs : List ℕ) → product_u32 xs ≡ u32 (product xs)
unfolding product_u32
product_u32-eq-u32 [] = refl
product_u32-eq-u32 (d ∷ xs) =
    ap (λ (n : ℕ). u32 (d * n)) (product_u32-eq-u32 xs) ∙ u32-mul d (product xs)

bounds_of :
    {p t : ℕ} → 0 < p → 1 < t → p * t < 2 ^ 32 → (p < 2 ^ 32) × (p * t < 2 ^ 32) × (t < 2 ^ 32)
bounds_of {p} {t} h k b =
    let wide : p * 1 ≤ p * t = mul-le-mul_left p (omega (arith, k)) in
    let tall : 1 * t ≤ p * t = mul-le-mul_right t (omega (arith, h)) in
    (omega (arith, wide, b), b, omega (arith, tall, b))

product-pos : (xs : List ℕ) → All (λ s. 0 < s) xs → 0 < product xs
product-pos [] h = omega arith
product-pos (x ∷ xs) (p, h) = let q = product-pos xs h in grind (arith, p, q)

bytes_pos : {p t : ℕ} → 0 < p → 1 < t → 0 < p * t
bytes_pos {p} {t} h k = let tall : 1 * t ≤ p * t = mul-le-mul_right t h in omega (arith, tall, k)

more_lines : (t lines line bytes : ℕ) → 1 < t → 0 < bytes → bytes ≤ lines * line → lines < t * lines
more_lines t zero line bytes h k fits = absurd (omega (arith, fits, k))
more_lines t (suc n) line bytes h k fits =
    let twice : 2 * suc n ≤ t * suc n = mul-le-mul_right (suc n) h in omega (arith, twice)

-- The equation, whatever `div_ceil` is.
estimate_of_full :
    (div_ceil : ℕ → ℕ → ℕ) (line : ℕ) (dims : Layout) (shape : List ℕ) (dtype_size : ℕ)
    {physical : List ℕ}
    → All (λ s. 0 < s) shape
    → expand_physical_shape dims shape ≡ done (ok physical)
    → (product shape < 2 ^ 32) × (product shape * dtype_size < 2 ^ 32) × (dtype_size < 2 ^ 32)
    → estimate_cache_lines div_ceil line dims shape dtype_size (length dims)
      ≡ done (u32 (dtype_size * div_ceil (product shape * dtype_size) line))
unfolding estimate_cache_lines expanded product_u32
estimate_of_full div_ceil line dims shape dtype_size {physical} pos e (s, b, t) =
    let none_before : length dims - length dims ≡ 0 = omega arith in
    let whole : product_u32 physical ≡ product shape =
      product_u32-eq-u32 physical
      ∙ ap u32 (expand_physical_shape-product dims shape pos e)
      ∙ u32_of_lt (product shape) s in
    let one : u32 (1 * dtype_size) ≡ dtype_size = omega arith in
    rw (le→leb (length dims) (length dims) (omega arith), e, none_before)
      (rw (whole, one, u32_of_lt (product shape * dtype_size) b) refl)

-- Of a tensor that is contiguous in all its dimensions, has an element type of more than one byte
-- and has so few bytes that no u32 wraps, the estimate is more than the number of lines that the
-- bytes fill, the least number of lines that holds them: it is the element's size times that number.
pub estimate_cache_lines-full :
    (div_ceil : ℕ → ℕ → ℕ) (line : ℕ) (dims : Layout) (shape : List ℕ) (dtype_size : ℕ)
    {physical : List ℕ}
    → IsDivCeil div_ceil
    → 0 < line
    → 1 < dtype_size
    → All (λ s. 0 < s) shape
    → expand_physical_shape dims shape ≡ done (ok physical)
    → product shape * dtype_size < 2 ^ 32
    → dtype_size * div_ceil (product shape * dtype_size) line < 2 ^ 32
    → (lines : ℕ) × (product shape * dtype_size ≤ lines * line)
      × ((n : ℕ) → product shape * dtype_size ≤ n * line → lines ≤ n)
      × (estimate_cache_lines div_ceil line dims shape dtype_size (length dims)
          ≡ done (dtype_size * lines))
      × (lines < dtype_size * lines)
estimate_cache_lines-full div_ceil line dims shape dtype_size {physical} contract l t pos e b r =
    let lines = div_ceil (product shape * dtype_size) line in
    let some_bytes : 0 < product shape = product-pos shape pos in
    let fits : product shape * dtype_size ≤ lines * line = contract.covers _ line l in
    (
      lines,
      fits,
      λ n h. contract.least (product shape * dtype_size) line n l h,
      estimate_of_full div_ceil line dims shape dtype_size pos e (bounds_of some_bytes t b)
          ∙ ap done (u32_of_lt (dtype_size * lines) r),
      more_lines dtype_size lines line (product shape * dtype_size) t (bytes_pos some_bytes t) fits,
    )
