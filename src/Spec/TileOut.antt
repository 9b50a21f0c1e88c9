-- ===== src/Spec/TileOut.antt =====
-- morello/src/spec.rs, `input_tilings_for_tile_out`: the input tiles that an output tile needs.
use morello.Base.{
  ℕ, suc, and_split, ◌+◌, ◌-◌, ◌^◌, ◌≤◌, ◌<◌, ◌≡◌, ◌≢◌, refl, ap, ◌∙◌, sym, Bool, true, ◌&&◌, List,
  [], ◌∷◌, All, Outcome, done, assert-done, done_eq, arith, u32, u32_of_lt, leb, ltb, leb→le,
  le→leb, lt→ltb, map, length, at, ==-true,
}
use morello.Common.{Dtype}
use morello.Tiling.{Tiling, new_sliding, is_simple}
use morello.Spec.{
  PrimitiveSpecType, PrimitiveBasics, matmul, conv, move_spec, zero_spec, dim_size, output_idx,
  matmul_output, conv_output, infer_output_shape, conv_spatial, spatial_of, conv_infer_output_shape,
  matmul_shapes, conv_shapes, parameter_shapes, Inferred, image_spatial, conv_input_tilings,
  matmul_input_tilings, input_tilings_for_tile_out,
}
use morello.Spec.RoundTrip.{IsSize, dim_size_lem}

-- A shape within another of the same rank, without an empty dimension.
abbrev pub IsWithin : List ℕ → List ℕ → Type 0
IsWithin [] [] = Unit
IsWithin (a ∷ inner) (b ∷ outer) = (0 < a) × (a ≤ b) × IsWithin inner outer
IsWithin _ _ = ⊥

-- Each shape within the one in its place.
abbrev pub AreWithin : List (List ℕ) → List (List ℕ) → Type 0
AreWithin [] _ = Unit
AreWithin (s ∷ shapes) (t ∷ outer) = IsWithin s t × AreWithin shapes outer
AreWithin _ [] = ⊥

abbrev pub tile_shapes : List Inferred → List (List ℕ)
tile_shapes tilings = map (λ i. i.0.shape) tilings

-- The inputs' tiles are found, lie within the inputs, and are what the output's tile is made of.
abbrev pub Yields : PrimitiveSpecType → List (List ℕ) → List ℕ → Outcome (List Inferred) → Type 0
Yields typ shapes tile found =
    (tilings : List Inferred) × (found ≡ done tilings)
    × ((infer_output_shape typ (tile_shapes tilings) ≡ done tile)
        × AreWithin (tile_shapes tilings) shapes)

two : (xs : List ℕ) → length xs ≡ 2 → (a : ℕ) × (b : ℕ) × (xs ≡ a ∷ b ∷ [])
two (a ∷ b ∷ []) h = (a, b, refl)
two [] h = absurd (omega arith)
two (a ∷ []) h = absurd (omega arith)
two (a ∷ b ∷ c ∷ xs) h = absurd (omega arith)

four :
    (xs : List ℕ)
    → length xs ≡ 4
    → (a : ℕ) × (b : ℕ) × (c : ℕ) × (d : ℕ) × (xs ≡ a ∷ b ∷ c ∷ d ∷ [])
four (a ∷ b ∷ c ∷ d ∷ []) h = (a, b, c, d, refl)
four [] h = absurd (omega arith)
four (a ∷ []) h = absurd (omega arith)
four (a ∷ b ∷ []) h = absurd (omega arith)
four (a ∷ b ∷ c ∷ []) h = absurd (omega arith)
four (a ∷ b ∷ c ∷ d ∷ e ∷ xs) h = absurd (omega arith)

IsWithin-length : (s t : List ℕ) → IsWithin s t → length s ≡ length t
IsWithin-length [] [] w = refl
IsWithin-length [] (b ∷ t) w = absurd w
IsWithin-length (a ∷ s) [] w = absurd w
IsWithin-length (a ∷ s) (b ∷ t) w = ap suc (IsWithin-length s t w.2)

matmul-Yields :
    (accum : Bool) (m k n : ℕ) (tile steps : List ℕ)
    → 0 < k
    → IsWithin tile (m ∷ n ∷ [])
    → length steps ≡ length tile
    → Yields
        (matmul accum)
        ((m ∷ k ∷ []) ∷ (k ∷ n ∷ []) ∷ (m ∷ n ∷ []) ∷ [])
        tile
        (matmul_input_tilings (m ∷ k ∷ n ∷ []) (record { shape = tile; step_sizes = steps }))
unfolding matmul_input_tilings new_sliding infer_output_shape matmul_output
matmul-Yields accum m k n [] steps p w l = absurd w
matmul-Yields accum m k n (a ∷ []) steps p w l = absurd w.2
matmul-Yields accum m k n (a ∷ b ∷ c ∷ tile) steps p w l = absurd w.2.2
matmul-Yields accum m k n (a ∷ b ∷ []) steps p w l =
    let (s, t, e) = two steps l in
    rw e (
      _,
      refl,
      (refl, ((w.0, w.1, (p, omega arith, tt)), ((p, omega arith, (w.2.0, w.2.1, tt)), tt))),
    )

-- The output of a convolution whose filters fit.
conv_out :
    (b c h w f fh fw : ℕ)
    → (leb fh h ≡ true) × (leb fw w ≡ true)
    → (0 < fh) × (0 < fw) × (h < 2 ^ 32) × (w < 2 ^ 32)
    → conv_infer_output_shape (b ∷ c ∷ h ∷ w ∷ []) (f ∷ c ∷ fh ∷ fw ∷ [])
      ≡ done (b ∷ f ∷ (h - fh + 1) ∷ (w - fw + 1) ∷ [])
unfolding conv_infer_output_shape conv_spatial spatial_of
conv_out b c h w f fh fw (l, r) (p, q, s, t) =
    let small : h - fh + 1 < 2 ^ 32 = omega (arith, leb→le _ _ l) in
    let small' : w - fw + 1 < 2 ^ 32 = omega (arith, leb→le _ _ r) in
    rw (==-true c c refl, l, r, u32_of_lt (h - fh + 1) small, u32_of_lt (w - fw + 1) small')
      (rw (dim_size_lem (h - fh + 1) (omega arith), dim_size_lem (w - fw + 1) (omega arith)) refl)

-- The spatial sizes of an image tile, and what a convolution makes of them.
image_tile :
    (o f d : ℕ)
    → (0 < o) × (o ≤ d - f + 1) × (0 < f) × (f ≤ d) × (d < 2 ^ 32)
    → (dim_size (u32 (o + f - 1)) ≡ done (o + f - 1))
      × (leb f (o + f - 1) ≡ true)
      × (o + f - 1 ≤ d)
      × (dim_size (u32 (1 + (o + f - 1) - f)) ≡ done o)
image_tile o f d h =
    let small : o + f - 1 < 2 ^ 32 = omega arith in
    let back : 1 + (o + f - 1) - f ≡ o = omega arith in
    (
      rw (u32_of_lt (o + f - 1) small) (dim_size_lem (o + f - 1) (omega arith)),
      le→leb f (o + f - 1) (omega arith),
      omega arith,
      rw (back, u32_of_lt o (omega arith)) (dim_size_lem o h.0),
    )

conv-Yields :
    (accum : Bool) (b f c h w fh fw : ℕ) (tile steps out : List ℕ)
    → (leb fh h ≡ true) × (leb fw w ≡ true)
    → All IsSize (c ∷ h ∷ w ∷ fh ∷ fw ∷ [])
    → IsWithin tile (b ∷ f ∷ (h - fh + 1) ∷ (w - fw + 1) ∷ [])
    → length steps ≡ length tile
    → Yields (conv accum) ((b ∷ c ∷ h ∷ w ∷ []) ∷ (f ∷ c ∷ fh ∷ fw ∷ []) ∷ out ∷ []) tile (
        conv_input_tilings
          (b ∷ f ∷ c ∷ h ∷ w ∷ fh ∷ fw ∷ [])
          (record { shape = tile; step_sizes = steps }))
unfolding conv_input_tilings image_spatial spatial_of new_sliding infer_output_shape conv_output
conv-Yields accum b f c h w fh fw [] steps out g a t n = absurd t
conv-Yields accum b f c h w fh fw (x ∷ []) steps out g a t n = absurd t.2
conv-Yields accum b f c h w fh fw (x ∷ y ∷ []) steps out g a t n = absurd t.2.2
conv-Yields accum b f c h w fh fw (x ∷ y ∷ p ∷ []) steps out g a t n = absurd t.2.2.2
conv-Yields accum b f c h w fh fw (x ∷ y ∷ p ∷ q ∷ z ∷ tile) steps out g a t n = absurd t.2.2.2.2
conv-Yields accum b f c h w fh fw (x ∷ y ∷ p ∷ q ∷ []) steps out (l, r) a t n =
    let tall = image_tile p fh h (omega (arith, leb→le _ _ l, t, a)) in
    let wide = image_tile q fw w (omega (arith, leb→le _ _ r, t, a)) in
    let (s0, s1, s2, s3, e) = four steps n in
    rw (e, tall.0, wide.0)
      (
        _,
        refl,
        (
          rw (tall.1, wide.1, tall.3, wide.3) refl,
          (
            (
              t.0,
              t.1,
              (
                a.0.0,
                omega arith,
                (omega (arith, t, a), tall.2, (omega (arith, t, a), wide.2, tt)),
              ),
            ),
            (
              (
                t.2.0,
                t.2.1,
                (a.0.0, omega arith, (a.1.1.1.0.0, omega arith, (a.1.1.1.1.0.0, omega arith, tt))),
              ),
              tt,
            ),
          ),
        ),
      )

-- A tiling that the Spec's type can be tiled to: any of a Conv, a simple one of the others.
abbrev pub CanTile : PrimitiveSpecType → Tiling → Type 0
CanTile (conv accum) tile = Unit
CanTile _ tile = is_simple tile ≡ true

of_typ :
    (typ : PrimitiveSpecType) (shape : List ℕ) (ts : List Dtype) (tile : Tiling)
    {shapes : List (List ℕ)} {out : List ℕ}
    → typ ≢ zero_spec
    → All IsSize shape
    → CanTile typ tile
    → (length tile.step_sizes ≡ length tile.shape) × (length tile.shape ≤ 256)
    → parameter_shapes (record { typ = typ; spec_shape = shape; dtypes = ts }) ≡ done shapes
    → at shapes (output_idx typ) ≡ done out
    → IsWithin tile.shape out
    → Yields typ shapes tile.shape
        (input_tilings_for_tile_out (record { typ = typ; spec_shape = shape; dtypes = ts }) tile)
unfolding parameter_shapes matmul_shapes conv_shapes input_tilings_for_tile_out output_idx
    infer_output_shape
of_typ zero_spec shape ts tile z a s n h o w = absurd (z refl)
of_typ move_spec shape ts tile {shapes} {out} z a s n h o w =
    let o' : at (shape ∷ shape ∷ []) 1 ≡ done out =
      ap (λ (s : List (List ℕ)). at s 1) (done_eq h) ∙ o in
    let inside : IsWithin tile.shape shape = rw (done_eq o') w in
    let rank : ltb (length tile.shape) 257 ≡ true = lt→ltb _ _ (omega (arith, n)) in
    rw (s, rank, sym (done_eq h)) (_, refl, (refl, (inside, tt)))
of_typ (matmul accum) (m ∷ k ∷ n ∷ []) ts tile {shapes} {out} z a s l h o w =
    let o' : done (m ∷ n ∷ []) ≡ done out = ap (λ (s : List (List ℕ)). at s 2) (done_eq h) ∙ o in
    let inside : IsWithin tile.shape (m ∷ n ∷ []) = rw (done_eq o') w in
    rw (s, sym (done_eq h))
      (matmul-Yields accum m k n tile.shape tile.step_sizes a.1.0.0 inside l.0)
of_typ (matmul accum) [] ts tile z a s l h o w = cc
of_typ (matmul accum) (m ∷ []) ts tile z a s l h o w = cc
of_typ (matmul accum) (m ∷ k ∷ []) ts tile z a s l h o w = cc
of_typ (matmul accum) (m ∷ k ∷ n ∷ d ∷ shape) ts tile z a s l h o w = cc
of_typ (conv accum) (b ∷ f ∷ c ∷ h ∷ w ∷ fh ∷ fw ∷ []) ts tile {shapes} {out} z a s l e o i =
    let (fits, e1) = assert-done (leb fh h && leb fw w) _ e in
    let g = and_split (leb fh h) (leb fw w) fits in
    let inferred =
      conv_out b c h w f fh fw g (a.1.1.1.1.1.0.0, a.1.1.1.1.1.1.0.0, a.1.1.1.0.1, a.1.1.1.1.0.1) in
    let shapes_eq : (b ∷ c ∷ h ∷ w ∷ [])
          ∷ (f ∷ c ∷ fh ∷ fw ∷ [])
          ∷ (b ∷ f ∷ (h - fh + 1) ∷ (w - fw + 1) ∷ [])
          ∷ []
        ≡ shapes =
      done_eq (rw inferred at e1) in
    let o' : done (b ∷ f ∷ (h - fh + 1) ∷ (w - fw + 1) ∷ []) ≡ done out =
      ap (λ (s : List (List ℕ)). at s 2) shapes_eq ∙ o in
    let inside : IsWithin tile.shape (b ∷ f ∷ (h - fh + 1) ∷ (w - fw + 1) ∷ []) =
      rw (done_eq o') i in
    rw (sym shapes_eq)
      (conv-Yields accum b f c h w fh fw tile.shape tile.step_sizes _ g a.1.1 inside l.0)
of_typ (conv accum) [] ts tile z a s l h o w = cc
of_typ (conv accum) (b ∷ []) ts tile z a s l h o w = cc
of_typ (conv accum) (b ∷ f ∷ []) ts tile z a s l h o w = cc
of_typ (conv accum) (b ∷ f ∷ c ∷ []) ts tile z a s l h o w = cc
of_typ (conv accum) (b ∷ f ∷ c ∷ x ∷ []) ts tile z a s l h o w = cc
of_typ (conv accum) (b ∷ f ∷ c ∷ x ∷ y ∷ []) ts tile z a s l h o w = cc
of_typ (conv accum) (b ∷ f ∷ c ∷ x ∷ y ∷ p ∷ []) ts tile z a s l h o w = cc
of_typ (conv accum) (b ∷ f ∷ c ∷ x ∷ y ∷ p ∷ q ∷ r ∷ shape) ts tile z a s l h o w = cc

-- Let a primitive Spec other than Zero have operands' shapes, by u32 sizes other than zero, and
-- let a tiling's shape be a nonempty part of its output's, of rank 256 at most, with a step for
-- each dimension, and simple unless the Spec is a Conv. Then the tilings of the inputs are found,
-- their shapes lie within the inputs' shapes, and what the Spec's type makes of these shapes is
-- exactly the output's tile.
pub input_tilings_for_tile_out-Yields :
    (basics : PrimitiveBasics) (tile : Tiling) {shapes : List (List ℕ)} {out : List ℕ}
    → basics.typ ≢ zero_spec
    → All IsSize basics.spec_shape
    → CanTile basics.typ tile
    → (length tile.step_sizes ≡ length tile.shape) × (length tile.shape ≤ 256)
    → parameter_shapes basics ≡ done shapes
    → at shapes (output_idx basics.typ) ≡ done out
    → IsWithin tile.shape out
    → Yields basics.typ shapes tile.shape (input_tilings_for_tile_out basics tile)
input_tilings_for_tile_out-Yields basics tile z a s n h o w =
    of_typ basics.typ basics.spec_shape basics.dtypes tile z a s n h o w
