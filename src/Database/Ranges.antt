-- ===== src/Database/Ranges.antt =====
-- morello/src/db.rs: `iter_blocks_in_single_dim_range`.
use native.Mathlib.Nat.{div-add-mod, mod-lt}
use mathlib.Core.List.{append_assoc, append-nil}
use morello.Base.{
  ℕ, zero, suc, ◌+◌, ◌-◌, ◌*◌, ◌/◌, ◌%◌, ◌^◌, ◌≤◌, ◌<◌, ◌≡◌, refl, ap, inl, inr, false, List, [],
  ◌∷◌, ◌++◌, range_from, range_from-append, ◌==◌, Bool-cases, leb, leb→le, leb-false, mul_mono, min,
  ==_iff, if◌then◌else◌, u32_of_lt, div_of_parts, arith,
}
use morello.Database.{BlockRange, full_blocks, iter_blocks_in_single_dim_range}

-- The global indices of a list of block ranges, in order.
abbrev pub covered : ℕ → List BlockRange → List ℕ
covered size [] = []
covered size (r ∷ rs) = range_from (r.block * size + r.start) (r.end - r.start) ++ covered size rs

-- A range of a block lies in the block, and is not empty.
pub record IsBlockRange (size : ℕ) (r : BlockRange) : Type 0 where
  pub not_empty : r.start < r.end
  pub fits : r.end ≤ size

covered-full_blocks :
    (size lo n : ℕ) (rest : List BlockRange)
    → covered size (full_blocks size lo n ++ rest)
      ≡ range_from (lo * size) (n * size) ++ covered size rest
unfolding full_blocks
covered-full_blocks size lo zero rest = let e : zero * size ≡ 0 = omega arith in rw e
covered-full_blocks size lo (suc n) rest =
    let e : lo * size + 0 ≡ lo * size = omega arith in
    let d : suc n * size ≡ size + n * size = omega arith in
    let f : suc lo * size ≡ lo * size + size = omega arith in
    let g : size - 0 ≡ size = omega arith in
    rw (
      e,
      g,
      covered-full_blocks size (suc lo) n rest,
      d,
      f,
      ← append_assoc,
      range_from-append (lo * size) size (n * size),
    )

-- The pieces of the range, in the numbers that the code computes: `p` and `s` are the block and
-- the place of the bottom, `t` and `e` those of the exclusive top, and `z` is the block size.
module _ (z p s t e : ℕ) (pos : 0 < z) (s_lt : s < z) (e_lt : e < z) where
  ceiling_of_top : (z * t + e + z - 1) / z ≡ (if e == 0 then t else t + 1)
  ceiling_of_top = elim (Bool-cases (e == 0)) [
    | inl whole ↦
        let shape : z * t + e + z - 1 ≡ z * t + (z - 1) = ground arith in
        rw (whole, shape) (div_of_parts z t (z - 1) (omega arith))
    | inr partial ↦
        let some_left : 0 < e = ground arith in
        let shape : z * t + e + z - 1 ≡ z * (t + 1) + (e - 1) = omega arith in
        rw (partial, shape) (div_of_parts z (t + 1) (e - 1) (omega arith))
  ]

module _ (bottom top z : ℕ) (pos : 0 < z) (ordered : bottom ≤ top) (small : top + z < 2 ^ 32) where
  block_top_lem :
      (top + 1 + z - 1) / z ≡ (if (top + 1) % z == 0 then (top + 1) / z else (top + 1) / z + 1)
  block_top_lem =
      let parts =
        ceiling_of_top z 0 0 ((top + 1) / z) ((top + 1) % z) pos pos (mod-lt (top + 1) pos) in
      rw (div-add-mod (top + 1) z) at parts

  bottom_parts : z * (bottom / z) + bottom % z ≡ bottom
  bottom_parts = div-add-mod bottom z

  top_parts : z * ((top + 1) / z) + (top + 1) % z ≡ top + 1
  top_parts = div-add-mod (top + 1) z

  start_eq : bottom / z * z + bottom % z ≡ bottom
  start_eq = omega (arith, bottom_parts)

  -- The bottom's block is not above the exclusive top's.
  blocks_ordered : bottom / z ≤ (top + 1) / z
  blocks_ordered = elim (Bool-cases (leb (bottom / z) ((top + 1) / z))) [
    | inl le ↦ leb→le _ _ le
    | inr gt ↦ absurd (
        omega (
          arith,
          bottom_parts,
          top_parts,
          mod-lt (top + 1) pos,
          mul_mono z (suc ((top + 1) / z)) (bottom / z) (leb-false _ _ gt),
        ))
  ]

  -- One block, from the bottom to the top within it.
  one_block :
      (n width : ℕ)
      → n ≡ 0
      → width ≡ top + 1 - bottom
      → range_from (bottom / z * z + bottom % z) width
          ++ covered z (full_blocks z (bottom / z + 1) n ++ [])
        ≡ range_from bottom (top + 1 - bottom)
  one_block n width e d =
      rw (e, d, start_eq) (unfold full_blocks in append-nil (range_from bottom (top + 1 - bottom)))

  -- The rest of the bottom's block, full blocks, and what the last block holds.
  many_blocks :
      (n last : ℕ) (rest : List BlockRange)
      → (top + 1) / z ≡ bottom / z + 1 + n
      → covered z rest ≡ range_from ((top + 1) / z * z) last
      → last ≡ (top + 1) % z
      → range_from (bottom / z * z + bottom % z) (z - bottom % z)
          ++ covered z (full_blocks z (bottom / z + 1) n ++ rest)
        ≡ range_from bottom (top + 1 - bottom)
  many_blocks n last rest e c l =
      let s_lt = mod-lt bottom pos in
      let ends : z * ((top + 1) / z) ≡ z * (bottom / z + 1 + n) = ap (λ (t : ℕ). z * t) e in
      let next : (bottom / z + 1) * z ≡ bottom + (z - bottom % z) = omega (arith, bottom_parts) in
      let third : (top + 1) / z * z ≡ bottom + (z - bottom % z) + n * z =
        omega (arith, bottom_parts, ends) in
      let total : z - bottom % z + n * z + last ≡ top + 1 - bottom =
        omega (arith, bottom_parts, top_parts, ends) in
      let third' : bottom + (z - bottom % z + n * z) ≡ bottom + (z - bottom % z) + n * z =
        omega arith in
      rw (
        start_eq,
        covered-full_blocks z (bottom / z + 1) n rest,
        c,
        third,
        next,
        ← append_assoc,
        range_from-append bottom (z - bottom % z) (n * z),
        ← third',
        range_from-append bottom (z - bottom % z + n * z) last,
        total,
      )

  top_positive : (top + 1) % z ≡ 0 → 0 < (top + 1) / z
  top_positive whole = elim (Bool-cases (leb ((top + 1) / z) 0)) [
    | inl none_left ↦
        absurd (omega (arith, top_parts, mul_mono z ((top + 1) / z) 0 (leb→le _ _ none_left)))
    | inr positive ↦ leb-false _ _ positive
  ]

  -- Where the top is a block's end, the width of the only block.
  width_whole :
      (top + 1) % z ≡ 0
      → bottom / z ≡ (top + 1) / z - 1
      → min (bottom % z + (top + 1 - bottom)) z - bottom % z ≡ top + 1 - bottom
  width_whole whole one =
      let next : (top + 1) / z ≡ bottom / z + 1 = omega (arith, top_positive whole) in
      omega (arith, bottom_parts, top_parts, mod-lt bottom pos, ap (λ (t : ℕ). z * t) next)

  width_partial :
      bottom / z ≡ (top + 1) / z
      → min (bottom % z + (top + 1 - bottom)) z - bottom % z ≡ top + 1 - bottom
  width_partial one = omega (
    arith,
    bottom_parts,
    top_parts,
    mod-lt bottom pos,
    mod-lt (top + 1) pos,
    ap (λ (t : ℕ). z * t) one,
  )

  apart_whole :
      (top + 1) % z ≡ 0 → (bottom / z == (top + 1) / z - 1) ≡ false → bottom / z < (top + 1) / z
  apart_whole whole many = elim (Bool-cases (leb ((top + 1) / z) (bottom / z))) [
    | inl le ↦ absurd (
        omega
          (arith, bottom_parts, top_parts, mul_mono z ((top + 1) / z) (bottom / z) (leb→le _ _ le)))
    | inr gt ↦ leb-false _ _ gt
  ]

  iter_blocks-covered :
      covered z (iter_blocks_in_single_dim_range bottom top z)
      ≡ range_from bottom (top + 1 - bottom)
  unfolding iter_blocks_in_single_dim_range
  iter_blocks-covered =
      rw
        (
          u32_of_lt (top + 1) (omega arith),
          u32_of_lt (top + 1 + z - 1) (omega arith),
          block_top_lem,
        )
        (elim (Bool-cases ((top + 1) % z == 0)) [
          | inl whole ↦
              let exact = (==_iff _ _).0 whole in
              rw whole (elim (Bool-cases (bottom / z == (top + 1) / z - 1)) [
                | inl one ↦
                    let p = (==_iff _ _).0 one in
                    rw one (one_block _ _ (omega arith) (width_whole exact p))
                | inr many ↦
                    let lt = apart_whole exact many in
                    rw many (many_blocks _ 0 [] (omega arith) refl (omega arith))
              ])
          | inr partial ↦ rw partial (elim (Bool-cases (bottom / z == (top + 1) / z + 1 - 1)) [
            | inl one ↦
                let p : bottom / z ≡ (top + 1) / z = ground arith in
                rw one (one_block _ _ (omega arith) (width_partial p))
            | inr many ↦
                let lt : bottom / z < (top + 1) / z = ground (arith, blocks_ordered) in
                rw many (many_blocks _ ((top + 1) % z) _ (omega arith) last_block refl)
          ])
        ])
    where
      last_block :
          covered z (record { block = (top + 1) / z + 1 - 1; start = 0; end = (top + 1) % z } ∷ [])
          ≡ range_from ((top + 1) / z * z) ((top + 1) % z)
      last_block =
          let e : ((top + 1) / z + 1 - 1) * z + 0 ≡ (top + 1) / z * z =
            let d : (top + 1) / z + 1 - 1 ≡ (top + 1) / z = omega arith in rw d (omega arith) in
          let w : (top + 1) % z - 0 ≡ (top + 1) % z = omega arith in rw (e, w) (append-nil _)

-- For u32 bounds whose sums with the block size do not wrap, the block ranges cover the global
-- indices from the bottom to the top, both included, each once and in order.
pub iter_blocks_in_single_dim_range-covered :
    (bottom top size : ℕ)
    → 0 < size
    → bottom ≤ top
    → top + size < 2 ^ 32
    → covered size (iter_blocks_in_single_dim_range bottom top size)
      ≡ range_from bottom (top + 1 - bottom)
iter_blocks_in_single_dim_range-covered bottom top size pos ordered small =
    iter_blocks-covered bottom top size pos ordered small
