-- ===== src/Layout/Update.antt =====
-- morello/src/layout.rs: how a layout and its contiguous suffix change for a tile, when dimensions
-- are dropped and when two dimensions are swapped.
--
-- `contig` counts the innermost physical dimensions that are contiguous.
use mathlib.Core.List.{reverse}
use morello.Base.{
  ℕ, zero, suc, ◌+◌, ◌-◌, min, Bool, true, false, not, ◌&&◌, ◌||◌, Option, none, some, List, [],
  ◌∷◌, ◌++◌, map, length, all_of, leb, ltb, ◌==◌, if◌then◌else◌, Outcome, done, panic, ◌>>=◌, ◌>>◌,
  assert, at,
}
use morello.Layout.{
  dynamic, packed, odd_even, Dim, Layout, Result, ok, err, expand_physical_shape, expanded,
  contiguous_full, new, row_major, no_consecutive,
}

-- Slices of a vector, up to and from an index.
abbrev pub take {ℓ} : {A : Type ℓ} → ℕ → List A → List A
take zero xs = []
take (suc n) [] = []
take (suc n) (x ∷ xs) = x ∷ take n xs

abbrev pub drop {ℓ} : {A : Type ℓ} → ℕ → List A → List A
drop zero xs = xs
drop (suc n) [] = []
drop (suc n) (x ∷ xs) = drop n xs

abbrev pub zip : List ℕ → List ℕ → List (ℕ × ℕ)
zip (a ∷ xs) (b ∷ ys) = (a, b) ∷ zip xs ys
zip _ _ = []

-- The index of the first contiguous dimension; a longer suffix than the layout panics.
unfoldable pub first_contig_idx : ℕ → ℕ → Outcome ℕ
first_contig_idx len contig = if leb contig len then done (len - contig) else panic

abbrev pub contains : List ℕ → ℕ → Bool
contains dropped d = not (all_of (λ e. not (e == d)) dropped)

unfoldable pub count_dropped : List ℕ → List Dim → ℕ
count_dropped dropped [] = 0
count_dropped dropped (d ∷ dims) =
    (if contains dropped d.0 then 1 else 0) + count_dropped dropped dims

unfoldable pub retain_dims : List ℕ → List Dim → List Dim
retain_dims dropped [] = []
retain_dims dropped (d ∷ dims) =
    let rest = retain_dims dropped dims in if contains dropped d.0 then rest else d ∷ rest

unfoldable pub dim_drop : Layout → List ℕ → ℕ → Outcome (Layout × ℕ)
dim_drop dims [] contiguous_abs = done (dims, contiguous_abs)
dim_drop dims (d ∷ dropped) contiguous_abs = do
  first ← first_contig_idx (length dims) contiguous_abs
  layout ← new (retain_dims (d ∷ dropped) dims)
  done (layout, contiguous_abs - count_dropped (d ∷ dropped) (drop first dims))

unfoldable pub swap_dim : ℕ × ℕ → Dim → Dim
swap_dim dims d =
    if d.0 == dims.0 then (dims.1, d.1) else if d.0 == dims.1 then (dims.0, d.1) else d

unfoldable pub swap_dims : Layout → ℕ × ℕ → ℕ → Outcome (Layout × ℕ)
swap_dims orig_dims dims contiguous_abs = do
  layout ← new (map (swap_dim dims) orig_dims)
  done (layout, contiguous_abs)

-- The walk outwards over the sizes before the contiguous ones, the innermost first.
unfoldable pub increase_loop : List ℕ → ℕ → ℕ
increase_loop [] contig = contig
increase_loop (s ∷ sizes) contig =
    let rest = increase_loop sizes (suc contig) in if s == 1 then rest else contig

unfoldable pub increase_contig_through_ones : Layout → List ℕ → ℕ → Outcome ℕ
increase_contig_through_ones dims tile_shape contig = do
  physical ← expanded dims tile_shape
  first ← first_contig_idx (length physical) contig
  done (increase_loop (reverse (take first physical)) contig)

-- `drop_unneeded_packings`: the number of packings of a logical dimension.
unfoldable pub packings : List Dim → ℕ → ℕ
packings [] logical_dim = 0
packings ((d, s) ∷ dims) logical_dim =
    (if d == logical_dim then elim s [ dynamic ↦ 0 | packed _ ↦ 1 | odd_even _ ↦ 0 ] else 0)
    + packings dims logical_dim

-- The index of the packing cleared for a logical dimension.
unfoldable pub cleared_at : List (ℕ × ℕ) → ℕ → Option ℕ
cleared_at [] logical_dim = none
cleared_at ((d, idx) ∷ cleared) logical_dim =
    let rest = cleared_at cleared logical_dim in if d == logical_dim then some idx else rest

abbrev is_cleared : List (ℕ × ℕ) → ℕ → Bool
is_cleared cleared logical_dim = elim (cleared_at cleared logical_dim) [
  | none ↦ false
  | some _ ↦ true
]

-- The walk from the innermost dimension outwards; the index of a dimension is the number of those
-- still to visit. `built` are the dimensions visited, in the layout's order.
unfoldable pub clear_loop :
    List Dim
    → List ℕ
    → ℕ
    → List Dim
    → List (ℕ × ℕ)
    → ℕ
    → List Dim
    → Outcome (List Dim × (List (ℕ × ℕ) × ℕ))
clear_loop dims tile_shape first [] cleared contig built = done (built, (cleared, contig))
clear_loop dims tile_shape first ((d, s) ∷ rest) cleared contig built =
    let idx = length rest in
    let keep = clear_loop dims tile_shape first rest cleared contig ((d, s) ∷ built) in
    let clear =
      clear_loop dims tile_shape first rest ((d, idx) ∷ cleared) contig ((d, dynamic) ∷ built) in
    let uncount = clear_loop dims tile_shape first rest cleared (contig - 1) ((d, s) ∷ built) in
    if not (packings dims d == 1) then keep else elim s [
      | dynamic ↦ if leb first idx && is_cleared cleared d then uncount else keep
      | packed fixed_size ↦ at tile_shape d >>= λ t. (if t == fixed_size then clear else keep)
      | odd_even _ ↦ keep
    ]

-- `retain`: a dimension outside its cleared packing goes.
unfoldable pub retain_loop : List (ℕ × ℕ) → ℕ → List Dim → List Dim
retain_loop cleared i [] = []
retain_loop cleared i (d ∷ dims) =
    let rest = retain_loop cleared (suc i) dims in
    elim (cleared_at cleared d.0) [
      | none ↦ d ∷ rest
      | some idx ↦ if leb idx i then d ∷ rest else rest
    ]

unfoldable pub drop_unneeded_packings : Layout → List ℕ → ℕ → Outcome (Layout × ℕ)
drop_unneeded_packings dims tile_shape contig = do
  first ← first_contig_idx (length dims) contig
  r ← clear_loop dims tile_shape first (reverse dims) [] contig []
  done (retain_loop r.1.0 0 r.0, r.1.1)

-- `sort_by_key` on the logical dimension, which is stable.
unfoldable pub insert_dim : Dim → List Dim → List Dim
insert_dim d [] = d ∷ []
insert_dim d (e ∷ dims) =
    let rest = insert_dim d dims in if leb d.0 e.0 then d ∷ e ∷ dims else e ∷ rest

unfoldable pub sort_dims : List Dim → List Dim
sort_dims [] = []
sort_dims (d ∷ dims) = insert_dim d (sort_dims dims)

-- The runs of physical size 1 are sorted; `run` is the run that is read, in order.
unfoldable pub reorder_loop : List ℕ → List Dim → List Dim → List Dim
reorder_loop (s ∷ sizes) (d ∷ dims) run =
    let longer = reorder_loop sizes dims (run ++ d ∷ []) in
    let next = sort_dims run ++ d ∷ reorder_loop sizes dims [] in if s == 1 then longer else next
reorder_loop _ dims run = sort_dims run ++ dims

unfoldable pub reorder_size_one_dynamic_dimensions : Layout → List ℕ → Outcome Layout
reorder_size_one_dynamic_dimensions dims shape = do
  physical ← expanded dims shape
  done (reorder_loop physical dims [])

unfoldable pub descends : List Dim → Bool
descends (d ∷ e ∷ dims) = ltb e.0 d.0 || descends (e ∷ dims)
descends _ = false

unfoldable pub noncanon_loop : List ℕ → List Dim → List Dim → Bool
noncanon_loop (s ∷ sizes) (d ∷ dims) run =
    let longer = noncanon_loop sizes dims (run ++ d ∷ []) in
    let next = descends run || noncanon_loop sizes dims [] in if s == 1 then longer else next
noncanon_loop _ dims run = descends run

unfoldable pub has_noncanon_size_one_dynamic_dimensions : Layout → List ℕ → Outcome Bool
has_noncanon_size_one_dynamic_dimensions dims shape = do
  physical ← expanded dims shape
  done (noncanon_loop physical dims [])

unfoldable pub same_shape : List ℕ → List ℕ → Bool
same_shape [] [] = true
same_shape (a ∷ xs) (b ∷ ys) = a == b && same_shape xs ys
same_shape _ _ = false

-- The `find_position` of itertools.
abbrev pub FindPosition : Type 0
FindPosition = (ℕ × ℕ → Bool) → List (ℕ × ℕ) → Option (ℕ × (ℕ × ℕ))

module _ (find_position : FindPosition) where
  unfoldable pub lower_contig_to_first_broken_dimension :
      Layout → List ℕ → List ℕ → ℕ → Outcome (Result ℕ)
  lower_contig_to_first_broken_dimension dims parent_shape tile_shape source_contig = do
    p ← expand_physical_shape dims parent_shape
    elim p [
      | err e ↦ done (err e)
      | ok parent_physical ↦ expand_physical_shape dims tile_shape >>= λ t. elim t [
        | err e ↦ done (err e)
        | ok tile_physical ↦
            assert (length parent_physical == length tile_physical)
            >> done (
                ok (
                  min
                    (elim (find_position (λ x. not (x.0 == x.1))
                      (zip (reverse parent_physical) (reverse tile_physical))) [
                        | none ↦ length dims
                        | some r ↦ suc r.0
                      ])
                    source_contig))
      ]
    ]

  unfoldable pub update_for_tiling : Layout → List ℕ → List ℕ → ℕ → Outcome (Result (Layout × ℕ))
  update_for_tiling dims parent_shape tile_shape contig =
      if all_of (λ d. d == 1) tile_shape
      then (do
        rm_layout ← row_major (length tile_shape)
        new_contig ← contiguous_full rm_layout
        done (ok (rm_layout, new_contig)))
      else (do
        lowered ← lower_contig_to_first_broken_dimension dims parent_shape tile_shape contig
        elim lowered [
          | err e ↦ done (err e)
          | ok new_contig ↦
              assert (not (same_shape parent_shape tile_shape) || new_contig == contig)
              >> assert (no_consecutive dims)
              >> (drop_unneeded_packings dims tile_shape new_contig >>= λ r.
                  reorder_size_one_dynamic_dimensions r.0 tile_shape >>= λ layout.
                  increase_contig_through_ones layout tile_shape r.1 >>= λ increased.
                  done (ok (layout, increased)))
        ])
