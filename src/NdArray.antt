-- ===== src/NdArray.antt =====
-- morello/src/ndarray.rs: arrays of any rank over run-length encoded vectors.
--
-- The vectors are those of the crate `rle_vec`, an argument of every definition: `RleVec` has the
-- operations that the source calls, and `IsRleVec` what the theorems use of them. Products of u32
-- wrap; a `usize` holds the volumes without a wrap. Where a shape and its ranges differ in length,
-- the longer one is cut at the end, as `zip` does.
pub mod Positions
pub mod Writes
mod Tests
use mathlib.Core.List.{reverse}
use morello.Base.{
  ℕ, ◌<◌, ◌≡◌, set, zero, suc, ◌+◌, ◌-◌, ◌*◌, ◌^◌, Bool, true, not, ◌&&◌, Option, none, some, List,
  [], ◌∷◌, ◌++◌, length, product, get_elem?, ltb, leb, ◌==◌, if◌then◌else◌, u32, Outcome, done,
  panic, ◌>>=◌, ◌>>◌, assert, at,
}
use morello.Layout.Update.{take, drop}
use morello.Utils.Ranges.{Range, range_len, iter_multidim_range}

pub record Run (T : Type 0) : Type 0 where
  pub start : ℕ
  pub len : ℕ
  pub value : T

pub record RleVec : Type 1 where
  pub Rle : Type 0 → Type 0
  pub iter : {T : Type 0} → Rle T → List T
  pub new : {T : Type 0} → Rle T
  pub push_n : {T : Type 0} → Rle T → ℕ → T → Rle T
  pub from_slice : {T : Type 0} → List T → Rle T
  pub set : {T : Type 0} → Rle T → ℕ → T → Rle T
  pub set_hint : {T : Type 0} → Rle T → ℕ → T → ℕ → Rle T × ℕ
  pub set_range : {T : Type 0} → Rle T → ℕ → ℕ → T → Rle T
  pub runs : {T : Type 0} → Rle T → List (Run T)
  pub run_index : {T : Type 0} → Rle T → ℕ → ℕ

-- What the theorems use of the crate: a write sets one element.
pub record IsRleVec (R : RleVec) : Type 1 where
  pub iter_set :
      {T : Type 0} (v : R.Rle T) (i : ℕ) (x : T)
      → i < length (R.iter v)
      → R.iter (R.set v i x) ≡ set (R.iter v) i x

module _ (R : RleVec) where
  pub record NdArray (T : Type 0) : Type 0 where
    pub cells : R.Rle T
    pub shape : List ℕ
    pub strides : List ℕ

-- The loop over the dimensions, the last one first, before the reversal.
unfoldable pub strides_loop : ℕ → List ℕ → List ℕ
strides_loop stride [] = []
strides_loop stride (dim ∷ dims) = stride ∷ strides_loop (stride * dim) dims

unfoldable pub calculate_strides : List ℕ → List ℕ
calculate_strides shape = reverse (strides_loop 1 (reverse shape))

unfoldable pub dot : List ℕ → List ℕ → ℕ
dot (i ∷ indices) (s ∷ strides) = i * s + dot indices strides
dot _ _ = 0

-- The first index of a value that fits, counted from `i` on.
unfoldable pub find_from : {T : Type 0} → (T → Bool) → ℕ → List T → Option ℕ
find_from predicate i [] = none
find_from predicate i (x ∷ xs) =
    let rest = find_from predicate (suc i) xs in if predicate x then some i else rest

abbrev pub last_or : ℕ → List ℕ → ℕ
last_or d [] = d
last_or d (x ∷ xs) = last_or x xs

-- `rle_vec_get_run`.
abbrev pub nth_run : {T : Type 0} → List (Run T) → ℕ → Outcome (Run T)
nth_run runs i = at runs i

unfoldable pub hinted_run : {T : Type 0} → List (Run T) → ℕ → ℕ → ℕ → Option ℕ
hinted_run runs index to_test zero = none
hinted_run runs index to_test (suc n) =
    let rest = hinted_run runs index (suc to_test) n in
    elim (get_elem? runs to_test) [
      | none ↦ rest
      | some run ↦
          if leb run.start index && ltb index (u32 (run.start + run.len))
          then some to_test
          else rest
    ]

-- The loop that extends a fill through the runs whose values are small enough.
unfoldable pub extend_loop : ℕ → ℕ → ℕ → List (Run ℕ) → Outcome ℕ
extend_loop len unfilled_max extended_idx [] =
    if leb len extended_idx then done extended_idx else panic
extend_loop len unfilled_max extended_idx (run ∷ runs) =
    let rest = extend_loop len unfilled_max (u32 (run.start + run.len)) runs in
    if leb len extended_idx
    then done extended_idx
    else (if ltb unfilled_max run.value then done extended_idx else rest)

unfoldable pub zip_ranges : List ℕ → List Range → List (ℕ × Range)
zip_ranges (sh ∷ shape) (dr ∷ dim_ranges) = (sh, dr) ∷ zip_ranges shape dim_ranges
zip_ranges _ _ = []

-- The volume of the dimensions at the end that the ranges cover whole, and the number of the
-- others; the dimensions are zipped with their ranges and given last first.
unfoldable pub whole_dims : List (ℕ × Range) → ℕ → ℕ → Outcome (ℕ × ℕ)
whole_dims [] prefix_size step_size = done (prefix_size, step_size)
whole_dims ((sh, dr) ∷ zipped) prefix_size step_size =
    let rest = whole_dims zipped (prefix_size - 1) (u32 (step_size * sh)) in
    if not (sh == range_len dr)
    then done (prefix_size, step_size)
    else assert (ltb sh (2 ^ 32)) >> rest

module _ (R : RleVec) (div_rem : ℕ → ℕ → ℕ × ℕ) where
  -- The coordinates of an offset, and what remains after the last stride.
  unfoldable pub unravel : List ℕ → ℕ → List ℕ × ℕ
  unravel [] remaining = ([], remaining)
  unravel (s ∷ strides) remaining =
      let (d, r) = div_rem remaining s in let (pt, left) = unravel strides r in (d ∷ pt, left)

  unfoldable pub position : {T : Type 0} → NdArray R T → (T → Bool) → Outcome (Option (List ℕ))
  position a predicate = elim (find_from predicate 0 (R.iter a.cells)) [
    | none ↦ done none
    | some idx ↦
        let (pt, remaining) = unravel a.strides idx in
        assert (remaining == 0) >> assert (length pt == length a.shape) >> done (some pt)
  ]

module _ (R : RleVec) where
  unfoldable pub run_index_frhint : {T : Type 0} → R.Rle T → ℕ → Option ℕ → ℕ
  run_index_frhint v index none = R.run_index v index
  run_index_frhint v index (some hint) = elim (hinted_run (R.runs v) index hint 8) [
    | none ↦ R.run_index v index
    | some i ↦ i
  ]

  module _ {T : Type 0} where
    unfoldable pub new_from_rlevec : List ℕ → ℕ → R.Rle T → Outcome (NdArray R T)
    new_from_rlevec shape volume buffer = do
      assert (length (R.iter buffer) == volume)
      done (record { cells = buffer; shape = shape; strides = calculate_strides shape })

    unfoldable pub new_with_value : List ℕ → T → Outcome (NdArray R T)
    new_with_value shape value =
        new_from_rlevec shape (product shape) (R.push_n R.new (product shape) value)

    unfoldable pub new_from_buffer : List ℕ → List T → Outcome (NdArray R T)
    new_from_buffer shape buffer = new_from_rlevec shape (product shape) (R.from_slice buffer)

    unfoldable pub data_offset : NdArray R T → List ℕ → Outcome ℕ
    data_offset a indices = do
      assert (length indices == length a.shape)
      done (dot indices a.strides)

    -- `Index`.
    unfoldable pub get : NdArray R T → List ℕ → Outcome T
    get a pt = do i ← data_offset a pt; at (R.iter a.cells) i

    unfoldable pub set_pt : NdArray R T → List ℕ → T → Outcome (NdArray R T)
    set_pt a pt value = do i ← data_offset a pt; done (record a { cells = R.set a.cells i value })

    unfoldable pub get_with_neighbor : NdArray R T → List ℕ → Outcome (T × Option T)
    get_with_neighbor a pt = do
      i ← data_offset a pt
      assert (ltb i (2 ^ 32))
      let run_idx = R.run_index a.cells i
      center ← nth_run (R.runs a.cells) run_idx
      if length (R.runs a.cells) == 1 then done (center.value, none) else (do
        neighbor ← nth_run (R.runs a.cells) (if run_idx == 0 then run_idx + 1 else run_idx - 1)
        done (center.value, some neighbor.value))

    -- The length of the fill, which may go on through cells of `filled` of small values.
    unfoldable pub extended_fill :
        Option (ℕ × R.Rle ℕ) → ℕ → R.Rle T → ℕ → Option ℕ → Outcome (ℕ × Option ℕ)
    extended_fill none index cells fill_len hint = done (fill_len, none)
    extended_fill (some (unfilled_max, filled)) index cells fill_len hint =
        assert (length (R.iter cells) == length (R.iter filled))
        >> (let extended_idx = u32 (index + fill_len) in
            if ltb extended_idx (length (R.iter filled))
            then (let run_idx = run_index_frhint filled extended_idx hint in
                extend_loop (length (R.iter filled)) unfilled_max extended_idx
                  (drop run_idx (R.runs filled))
                >>= λ e. done (u32 (e + 2 ^ 32 - index), some run_idx))
            else done (fill_len, none))

    unfoldable pub fill_region_ext_inner :
        R.Rle T → ℕ → ℕ → T → Option (ℕ × R.Rle ℕ) → Option ℕ → Outcome (R.Rle T × Option ℕ)
    fill_region_ext_inner cells index fill_len value through_unfilled hint = do
      r ← extended_fill through_unfilled index cells fill_len hint
      done (R.set_range cells index r.0 value, r.1)

    -- The calls for the points outside the whole tiles.
    unfoldable pub fill_visits :
        List (ℕ × List ℕ)
        → ℕ
        → ℕ
        → T
        → Option (ℕ × R.Rle ℕ)
        → Option ℕ
        → R.Rle T
        → Outcome (R.Rle T)
    fill_visits [] offset step_size value through_unfilled hint cells = done cells
    fill_visits ((i, pt) ∷ visits) offset step_size value through_unfilled hint cells = do
      assert (ltb i (2 ^ 32))
      r ← fill_region_ext_inner cells (u32 (i + offset)) step_size value through_unfilled hint
      fill_visits visits offset step_size value through_unfilled r.1 r.0

    -- From the first dimension on, counted from the last, that is not covered whole.
    unfoldable pub fill_tiles :
        NdArray R T → List Range → T → Option (ℕ × R.Rle ℕ) → ℕ → ℕ → Outcome (R.Rle T)
    fill_tiles a dim_ranges value through_unfilled prefix_size step_size = do
      next_rng ← at dim_ranges (prefix_size - 1)
      let offset = u32 (next_rng.start * step_size)
      let step = u32 (step_size * u32 (next_rng.end + 2 ^ 32 - next_rng.start))
      if prefix_size == 1
          then (fill_region_ext_inner a.cells offset step value through_unfilled none >>= λ r.
              done r.0)
          else (iter_multidim_range (take (prefix_size - 1) dim_ranges)
                (take (prefix_size - 1) a.strides)
              >>= λ visits. fill_visits visits offset step value through_unfilled none a.cells)

    unfoldable pub fill_region_ext :
        NdArray R T → List Range → T → Option (ℕ × NdArray R ℕ) → Outcome (NdArray R T)
    fill_region_ext a dim_ranges value through_unfilled = do
      w ← whole_dims (reverse (zip_ranges a.shape dim_ranges)) (length a.shape) 1
      cells ←
          if w.0 == 0
          then (assert (product a.shape == w.1) >> done (R.set_range a.cells 0 w.1 value))
          else fill_tiles a dim_ranges value
              (elim through_unfilled [ none ↦ none | some (v, f) ↦ some (v, f.cells) ]) w.0 w.1
      done (record a { cells = cells })

    unfoldable pub fill_region : NdArray R T → List Range → T → Outcome (NdArray R T)
    fill_region a dim_ranges value = fill_region_ext a dim_ranges value none

    -- The callback of `fill_broadcast_1d` at each point: the values left of the slice, and the run
    -- that was set last.
    unfoldable pub broadcast_visits :
        List (ℕ × List ℕ) → ℕ → List T → List T → ℕ → R.Rle T → R.Rle T
    broadcast_visits [] k slice left last_run_idx cells = cells
    broadcast_visits ((i, pt) ∷ visits) k slice [] last_run_idx cells =
        broadcast_visits visits k slice (if last_or 0 pt == k - 1 then slice else []) last_run_idx
          cells
    broadcast_visits ((i, pt) ∷ visits) k slice (v ∷ left) last_run_idx cells =
        let r = R.set_hint cells i v last_run_idx in
        broadcast_visits visits k slice (if last_or 0 pt == k - 1 then slice else left) r.1 r.0

    unfoldable pub fill_broadcast_1d :
        NdArray R T → List Range → List T → Option (NdArray R ℕ) → Outcome (NdArray R T)
    fill_broadcast_1d a dim_ranges inner_slice filled = do
      assert (elim filled [ none ↦ true | some f ↦ length dim_ranges == length f.shape ])
      assert (leb 1 (length a.shape))
      k ← at a.shape (length a.shape - 1)
      assert (ltb k (2 ^ 32))
      let ext = dim_ranges ++ record { start = 0; end = k } ∷ []
      if k == 1
          then (elim inner_slice [
            | [] ↦ done a
            | v ∷ rest ↦
                fill_region_ext a ext v (elim filled [ none ↦ none | some f ↦ some (1, f) ])
          ])
          else (iter_multidim_range ext a.strides >>= λ visits.
              done
                (record a { cells = broadcast_visits visits k inner_slice inner_slice 0 a.cells }))
