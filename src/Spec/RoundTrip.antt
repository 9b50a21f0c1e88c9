-- ===== src/Spec/RoundTrip.antt =====
-- morello/src/spec.rs: a primitive Spec is read back from its database key and coordinates.
use native.Mathlib.Nat.{mod-eq_of_lt}
use morello.Base.{
  ℕ, zero, suc, ◌+◌, ◌-◌, ◌^◌, ◌<◌, ◌≡◌, refl, ap, ap₂, ◌∙◌, sym, Bool, true, false, inl, inr, List,
  [], ◌∷◌, All, done, ◌>>=◌, >>=-eq-done, assert-done, arith, u32, u64, two_pow_pos, two_pow_suc,
  two_pow_mono, done_eq, lt→ltb, ◌==◌, leb, Bool-cases, leb→le, leb-false, length,
}
use morello.Common.{Dtype}
use morello.Utils.Bits.{
  bit_length_u32, bit_length_inverse, is_power_of_two, prev_power_of_two, next_power_of_two,
}
use morello.Utils.Bits.Lengths.{
  HasTop, two_pow-HasTop, leading_zeros-top, leading_zeros-zero, bit_length_inverse-suc,
  bit_length_inverse-zero,
}
use morello.Utils.Bits.Rounding.{
  prev_power_of_two-top, prev_power_of_two-zero, is_power_of_two_iff, next_power_of_two-top,
}
use morello.Spec.{
  PrimitiveBasics, PrimitiveSpecType, matmul, conv, move_spec, zero_spec, dim_size, operand_count,
  input_count,
}
use morello.Spec.Keys.{
  SpecKey, matmul_key, conv_key, move_key, shape_coordinate, shape_apply, coordinate_size,
  shape_apply_inverse, subtract_at, add_at, triple_key, pair_key, accum_coordinate, basics_apply,
  basics_apply_inverse,
}

-- A size that a u32 other than zero holds.
abbrev pub IsSize : ℕ → Type 0
IsSize d = (0 < d) × (d < 2 ^ 32)

pub dim_size_lem : (d : ℕ) → 0 < d → dim_size d ≡ done d
unfolding dim_size
dim_size_lem zero p = absurd (omega arith)
dim_size_lem (suc d) p = refl

-- The exponent of a power of two is its coordinate.
scaled_coordinate : (k : ℕ) → k < 32 → bit_length_u32 (prev_power_of_two (2 ^ k - 1)) ≡ k
unfolding bit_length_u32
scaled_coordinate zero l = rw prev_power_of_two-zero (omega (arith, leading_zeros-zero 32))
scaled_coordinate (suc j) l =
    let top : HasTop (2 ^ suc j - 1) j =
      (omega (arith, two_pow_suc j, two_pow_pos j), omega (arith, two_pow_pos (suc j))) in
    rw (prev_power_of_two-top (2 ^ suc j - 1) j (omega arith) top)
      (omega (arith, leading_zeros-top 32 (2 ^ j) j (omega arith) (two_pow-HasTop j)))

scaled_size : (k : ℕ) → k < 32 → next_power_of_two (u64 (bit_length_inverse k + 1)) ≡ 2 ^ k
scaled_size zero l = rw bit_length_inverse-zero (unfold next_power_of_two in refl)
scaled_size (suc zero) l =
    rw (bit_length_inverse-suc zero (omega arith))
      (next_power_of_two-top 2 zero (omega arith) (omega arith) (omega arith))
scaled_size (suc (suc j)) l =
    let small : 2 ^ suc j + 1 < 2 ^ 64 = omega (arith, two_pow_mono (suc j) 32 (omega arith)) in
    rw (bit_length_inverse-suc (suc j) (omega arith), mod-eq_of_lt small)
      (next_power_of_two-top (2 ^ suc j + 1) (suc j) (omega arith) (omega arith)
        (omega (arith, two_pow_suc (suc j), two_pow_pos (suc j))))

exponent_lt : (k n : ℕ) → 2 ^ k < 2 ^ n → k < n
exponent_lt k n h = elim (Bool-cases (leb n k)) [
  | inl le ↦ absurd (omega (arith, two_pow_mono n k (leb→le _ _ le)))
  | inr gt ↦ leb-false _ _ gt
]

coordinate_size-shape_coordinate :
    (binary_scale : Bool) (d : ℕ) {c : ℕ}
    → IsSize d
    → shape_coordinate binary_scale d ≡ done c
    → (coordinate_size binary_scale c ≡ done d) × (c < 2 ^ 32)
unfolding shape_coordinate coordinate_size
coordinate_size-shape_coordinate false d {c} s h =
    let e : d - 1 ≡ c = done_eq h in
    let back : u32 (d - 1 + 1) ≡ d = omega (arith, s.0, s.1) in
    rw (sym e) (rw back (dim_size_lem d s.0), omega arith)
coordinate_size-shape_coordinate true d {c} s h =
    let t = assert-done (is_power_of_two d) _ h in
    let (k, e) = (is_power_of_two_iff d).0 t.0 in
    let l : k < 32 = exponent_lt k 32 (omega arith) in
    let c_eq : k ≡ c =
      sym (scaled_coordinate k l)
      ∙ ap (λ (n : ℕ). bit_length_u32 (prev_power_of_two (n - 1))) (sym e)
      ∙ done_eq t.1 in
    let size : next_power_of_two (u64 (bit_length_inverse k + 1)) ≡ d = scaled_size k l ∙ sym e in
    rw (sym c_eq) (rw (size, lt→ltb d (2 ^ 32) s.1) (dim_size_lem d s.0), omega arith)

shape_apply_inverse-shape_apply :
    (binary_scale : Bool) (shape : List ℕ) {pt : List ℕ}
    → All IsSize shape
    → shape_apply binary_scale shape ≡ done pt
    → (shape_apply_inverse binary_scale pt ≡ done shape) × All (λ c. c < 2 ^ 32) pt
unfolding shape_apply shape_apply_inverse
shape_apply_inverse-shape_apply binary_scale [] a h = rw (sym (done_eq h)) (refl, tt)
shape_apply_inverse-shape_apply binary_scale (d ∷ shape) a h =
    let (c, e, h1) = >>=-eq-done (shape_coordinate binary_scale d) _ h in
    let (rest, f, h2) = >>=-eq-done (shape_apply binary_scale shape) _ h1 in
    let first = coordinate_size-shape_coordinate binary_scale d a.0 e in
    let ih = shape_apply_inverse-shape_apply binary_scale shape a.1 f in
    rw (sym (done_eq h2)) (rw (first.0, ih.0) refl, (first.1, ih.1))

accum_back : (accum : Bool) → (accum_coordinate accum == 0) ≡ accum
unfolding accum_coordinate
accum_back true = refl
accum_back false = refl

-- Subtraction and addition on u32 undo each other.
wrapped_back : (a b : ℕ) → a < 2 ^ 32 → b < 2 ^ 32 → u32 (u32 (a + 2 ^ 32 - b) + b) ≡ a
wrapped_back a b h k = omega arith

triple_key-done :
    (key : Dtype → Dtype → Dtype → SpecKey) (ts : List Dtype) {k : SpecKey}
    → triple_key key ts ≡ done k
    → (a : Dtype) × (b : Dtype) × (c : Dtype) × (ts ≡ a ∷ b ∷ c ∷ []) × (k ≡ key a b c)
unfolding triple_key
triple_key-done key [] h = cc
triple_key-done key (a ∷ []) h = cc
triple_key-done key (a ∷ b ∷ []) h = cc
triple_key-done key (a ∷ b ∷ c ∷ []) h = (a, b, c, refl, sym (done_eq h))
triple_key-done key (a ∷ b ∷ c ∷ d ∷ ts) h = cc

pair_key-done :
    (ts : List Dtype) {k : SpecKey}
    → pair_key ts ≡ done k
    → (a : Dtype) × (b : Dtype) × (ts ≡ a ∷ b ∷ []) × (k ≡ move_key a b)
unfolding pair_key
pair_key-done [] h = cc
pair_key-done (a ∷ []) h = cc
pair_key-done (a ∷ b ∷ []) h = (a, b, refl, sym (done_eq h))
pair_key-done (a ∷ b ∷ c ∷ ts) h = cc

-- The image's coordinates are read back from those that `basics_apply` normalises.
denormalised :
    (first : ℕ) (pt : List ℕ) {normal : List ℕ}
    → All (λ c. c < 2 ^ 32) pt
    → (subtract_at (first ∷ pt) 4 6 >>= λ v. subtract_at v 5 7) ≡ done normal
    → (rest : List ℕ) × (normal ≡ first ∷ rest)
      × ((add_at rest 3 5 >>= λ tall. add_at tall 4 6) ≡ done pt)
unfolding subtract_at add_at
denormalised first (a ∷ b ∷ c ∷ d ∷ e ∷ f ∷ g ∷ pt) s h = (
  a ∷ b ∷ c ∷ u32 (d + 2 ^ 32 - f) ∷ u32 (e + 2 ^ 32 - g) ∷ f ∷ g ∷ pt,
  sym (done_eq h),
  rw (wrapped_back d f s.1.1.1.0 s.1.1.1.1.1.0, wrapped_back e g s.1.1.1.1.0 s.1.1.1.1.1.1.0) refl,
)
denormalised first [] s h = cc
denormalised first (a ∷ []) s h = cc
denormalised first (a ∷ b ∷ []) s h = cc
denormalised first (a ∷ b ∷ c ∷ []) s h = cc
denormalised first (a ∷ b ∷ c ∷ d ∷ []) s h = cc
denormalised first (a ∷ b ∷ c ∷ d ∷ e ∷ []) s h = cc
denormalised first (a ∷ b ∷ c ∷ d ∷ e ∷ f ∷ []) s h = cc

module _ (binary_scale : Bool) where
  conv_inverse :
      (accum : Bool) (shape pt rest tall : List ℕ) (x y z : Dtype)
      → add_at rest 3 5 ≡ done tall
      → add_at tall 4 6 ≡ done pt
      → shape_apply_inverse binary_scale pt ≡ done shape
      → basics_apply_inverse binary_scale (conv_key x y z, accum_coordinate accum ∷ rest)
        ≡ done (record { typ = conv accum; spec_shape = shape; dtypes = x ∷ y ∷ z ∷ [] })
  unfolding basics_apply_inverse
  conv_inverse accum shape pt rest tall x y z g1 g2 back = rw (g1, g2, back, accum_back accum) refl

  apply_of :
      (typ : PrimitiveSpecType) (shape : List ℕ) (ts : List Dtype) {r : SpecKey × List ℕ}
      → All IsSize shape
      → length ts ≡ operand_count typ
      → basics_apply binary_scale (record { typ = typ; spec_shape = shape; dtypes = ts }) ≡ done r
      → basics_apply_inverse binary_scale r
        ≡ done (record { typ = typ; spec_shape = shape; dtypes = ts })
  unfolding basics_apply basics_apply_inverse operand_count input_count
  apply_of (matmul accum) shape ts a n h =
      let (pt, e, h1) = >>=-eq-done (shape_apply binary_scale shape) _ h in
      let (key, f, h2) = >>=-eq-done (triple_key matmul_key ts) _ h1 in
      let (x, y, z, t_eq, k_eq) = triple_key-done matmul_key ts f in
      let back = shape_apply_inverse-shape_apply binary_scale shape a e in
      rw (sym (done_eq h2), k_eq) (rw (back.0, accum_back accum, t_eq) refl)
  apply_of (conv accum) shape ts a n h =
      let (pt, e, h1) = >>=-eq-done (shape_apply binary_scale shape) _ h in
      let back = shape_apply_inverse-shape_apply binary_scale shape a e in
      let (v, e1, h2) = >>=-eq-done (subtract_at (accum_coordinate accum ∷ pt) 4 6) _ h1 in
      let (normal, e2, h3) = >>=-eq-done (subtract_at v 5 7) _ h2 in
      let (key, f, h4) = >>=-eq-done (triple_key conv_key ts) _ h3 in
      let (x, y, z, t_eq, k_eq) = triple_key-done conv_key ts f in
      let both : (subtract_at (accum_coordinate accum ∷ pt) 4 6 >>= λ v. subtract_at v 5 7)
          ≡ done normal =
        rw e1 e2 in
      let (rest, n_eq, added) = denormalised (accum_coordinate accum) pt back.1 both in
      let (tall, g1, g2) = >>=-eq-done (add_at rest 3 5) _ added in
      ap (λ k. basics_apply_inverse binary_scale k)
        (sym (done_eq h4) ∙ ap₂ (λ (k : SpecKey) (p : List ℕ). (k, p)) k_eq n_eq)
      ∙ conv_inverse accum shape pt rest tall x y z g1 g2 back.0
      ∙ ap (λ ds. done (record { typ = conv accum; spec_shape = shape; dtypes = ds })) (sym t_eq)
  apply_of move_spec shape ts a n h =
      let (pt, e, h1) = >>=-eq-done (shape_apply binary_scale shape) _ h in
      let (key, f, h2) = >>=-eq-done (pair_key ts) _ h1 in
      let (x, y, t_eq, k_eq) = pair_key-done ts f in
      let back = shape_apply_inverse-shape_apply binary_scale shape a e in
      rw (sym (done_eq h2), k_eq) (rw (back.0, t_eq) refl)
  apply_of zero_spec shape [] a n h = absurd (omega arith)
  apply_of zero_spec shape (t ∷ s ∷ ts) a n h = absurd (omega arith)
  apply_of zero_spec shape (t ∷ []) a n h =
      let (pt, e, h1) = >>=-eq-done (shape_apply binary_scale shape) _ h in
      let back = shape_apply_inverse-shape_apply binary_scale shape a e in
      rw (sym (done_eq h1)) (rw back.0 refl)

-- A primitive Spec whose dimension sizes are u32 and not zero, with an element type for each
-- operand, comes back from its key and its coordinates, with and without binary scaling, whenever
-- `apply` gives them.
pub basics_apply_inverse-basics_apply :
    (binary_scale : Bool) (basics : PrimitiveBasics) {r : SpecKey × List ℕ}
    → All IsSize basics.spec_shape
    → length basics.dtypes ≡ operand_count basics.typ
    → basics_apply binary_scale basics ≡ done r
    → basics_apply_inverse binary_scale r ≡ done basics
basics_apply_inverse-basics_apply binary_scale basics a n h =
    apply_of binary_scale basics.typ basics.spec_shape basics.dtypes a n h
