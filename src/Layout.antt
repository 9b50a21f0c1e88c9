-- ===== src/Layout.antt =====
-- morello/src/layout.rs: layouts of tensors in memory.
--
-- A dimension size is a positive u32, a logical dimension a u8; the model keeps both as numbers.
-- `debug_assert!` and the assertions under `debug_assertions` panic, as in a debug build.
-- `HashSet<u8>` is a membership list, which is read only.
pub mod Expand
pub mod Merge
pub mod Update
pub mod SameShape
pub mod Contig
pub mod Canonical
pub mod Drop
pub mod Indexing
pub mod Outcomes
mod Tests
use mathlib.Core.List.{reverse}
use morello.Base.{
  ℕ, zero, suc, ◌+◌, ◌-◌, ◌*◌, ◌/◌, ◌%◌, ◌^◌, min, Bool, true, false, not, ◌&&◌, ◌||◌, Option, none,
  some, List, [], ◌∷◌, ◌++◌, map, length, get_elem?, set, range_from, product, all_of, replicate,
  leb, ltb, ◌==◌, if◌then◌else◌, u32, Outcome, done, panic, ◌>>=◌, ◌>>◌, assert, at,
}

pub data PhysDim : Type 0 where
  dynamic : PhysDim
  packed odd_even : ℕ → PhysDim

-- A logical dimension and how it is laid out.
abbrev pub Dim : Type 0
Dim = ℕ × PhysDim

abbrev pub Layout : Type 0
Layout = List Dim

pub data LayoutError : Type 0 where
  invalid_shape : List ℕ → LayoutError

-- Rust's `Result<A, LayoutError>`.
pub data Result {ℓ} (A : Type ℓ) : Type ℓ where
  ok : A → Result A
  err : LayoutError → Result A

-- What a physical dimension takes from the size that remains of its logical dimension: its own
-- size and what is left. `none` where the size does not divide; 0 marks a dimension as used up.
unfoldable pub take_dim : PhysDim → ℕ → Option (ℕ × ℕ)
take_dim dynamic remaining = some (remaining, 0)
take_dim (packed s) remaining = if remaining % s == 0 then some (s, remaining / s) else none
take_dim (odd_even s) remaining = if remaining % s == 0 then some (s, remaining / s) else none

-- The loop of `expand_physical_shape` over the layout from its innermost dimension on. `physical`
-- is the vector that it pushes to, in the order that the final `reverse` gives it.
unfoldable pub expand_loop :
    List ℕ → List Dim → List ℕ → List ℕ → Outcome (Result (List ℕ × List ℕ))
expand_loop logical_shape [] remaining physical = done (ok (physical, remaining))
expand_loop logical_shape ((dim, phys_dim) ∷ dims) remaining physical = do
  remaining_size ← at remaining dim
  assert (not (remaining_size == 0))
  elim (take_dim phys_dim remaining_size) [
    | none ↦ done (err (invalid_shape logical_shape))
    | some (size, left) ↦ expand_loop logical_shape dims (set remaining dim left) (size ∷ physical)
  ]

unfoldable pub expand_physical_shape : Layout → List ℕ → Outcome (Result (List ℕ))
expand_physical_shape dims logical_shape = do
  r ← expand_loop logical_shape (reverse dims) logical_shape []
  elim r [
    | err e ↦ done (err e)
    | ok (physical, remaining) ↦
        if all_of (λ d. leb d 1) remaining
        then done (ok physical)
        else done (err (invalid_shape logical_shape))
  ]

unfoldable pub applies_to_shape : Layout → List ℕ → Outcome Bool
applies_to_shape dims shape = do
  r ← expand_physical_shape dims shape
  elim r [ ok _ ↦ done true | err _ ↦ done false ]

-- `unwrap` of an expansion.
unfoldable pub expanded : Layout → List ℕ → Outcome (List ℕ)
expanded dims shape = do
  r ← expand_physical_shape dims shape
  elim r [ ok physical ↦ done physical | err _ ↦ panic ]

-- `expand_logical_dim_physical_shape`: the same for one logical dimension. `idx` is the physical
-- index after the one that is read next.
unfoldable pub expand_dim_loop :
    List ℕ → ℕ → List Dim → ℕ → ℕ → List (ℕ × ℕ) → Outcome (Result (List (ℕ × ℕ) × ℕ))
expand_dim_loop logical_shape logical_dim [] idx remaining physical =
    done (ok (physical, remaining))
expand_dim_loop logical_shape logical_dim ((dim, fixed_size) ∷ dims) idx remaining physical =
    let skip = expand_dim_loop logical_shape logical_dim dims (idx - 1) remaining physical in
    if dim == logical_dim
    then assert (not (remaining == 0)) >> elim (take_dim fixed_size remaining) [
      | none ↦ done (err (invalid_shape logical_shape))
      | some (size, left) ↦
          expand_dim_loop logical_shape logical_dim dims (idx - 1) left ((idx - 1, size) ∷ physical)
    ]
    else skip

unfoldable pub expand_logical_dim_physical_shape :
    Layout → ℕ → List ℕ → Outcome (Result (List (ℕ × ℕ)))
expand_logical_dim_physical_shape dims logical_dim logical_shape = do
  size ← at logical_shape logical_dim
  r ← expand_dim_loop logical_shape logical_dim (reverse dims) (length dims) size []
  elim r [
    | err e ↦ done (err e)
    | ok (physical, remaining) ↦
        if leb remaining 1 then done (ok physical) else done (err (invalid_shape logical_shape))
  ]

unfoldable pub find_index : ℕ → List (ℕ × ℕ) → Option ℕ
find_index i [] = none
find_index i ((idx, s) ∷ expanded) = if idx == i then some s else find_index i expanded

unfoldable pub physical_size : Layout → ℕ → List ℕ → Outcome (Result ℕ)
physical_size dims physical_dim logical_shape = do
  d ← at dims physical_dim
  r ← expand_logical_dim_physical_shape dims d.0 logical_shape
  elim r [
    | err e ↦ done (err e)
    | ok sizes ↦ done (elim (find_index physical_dim sizes) [
      | some s ↦ ok s
      | none ↦ err (invalid_shape logical_shape)
    ])
  ]

-- The assertions of `Layout::new`.
abbrev pub is_dynamic : PhysDim → Bool
is_dynamic dynamic = true
is_dynamic _ = false

-- Only the first mention of a logical dimension may be dynamic; `seen` is what came before.
unfoldable pub dynamic_first : List ℕ → List Dim → Bool
dynamic_first seen [] = true
dynamic_first seen ((d, p) ∷ dims) =
    not (is_dynamic p && not (all_of (λ e. not (e == d)) seen)) && dynamic_first (d ∷ seen) dims

-- Every logical dimension below the largest is mentioned.
unfoldable pub all_mentioned : List Dim → Bool
all_mentioned dims =
    all_of (λ e. all_of (λ i. not (all_of (λ f. not (f.0 == i)) dims)) (range_from 0 e.0)) dims

-- `assert_no_consecutive_dimensions`.
unfoldable pub no_consecutive : List Dim → Bool
no_consecutive ((d, p) ∷ (e, q) ∷ dims) =
    not (d == e && not (is_dynamic p) && not (is_dynamic q)) && no_consecutive ((e, q) ∷ dims)
no_consecutive _ = true

-- `assert_no_size_1_packings` and `assert_no_odd_deinterleaves`.
abbrev pub is_proper : PhysDim → Bool
is_proper dynamic = true
is_proper (packed s) = not (s == 1)
is_proper (odd_even s) = s % 2 == 0

abbrev pub is_empty : List Dim → Bool
is_empty [] = true
is_empty _ = false

-- The loop of `merge_consecutive_dimensions`, at `dims[idx + 1]`; `last` is the last dimension
-- pushed, `pushed` those before it, the last one first.
unfoldable pub merge_loop : ℕ → ℕ → Dim → List Dim → ℕ → List Dim → Outcome (List Dim × ℕ)
merge_loop first_contig idx last pushed contig [] = done (reverse (last ∷ pushed), contig)
merge_loop first_contig idx (last_dim, last_phys) pushed contig ((dim, phys) ∷ dims) =
    let push =
      merge_loop first_contig (suc idx) (dim, phys) ((last_dim, last_phys) ∷ pushed) contig dims in
    let merge = λ (size : ℕ).
      merge_loop first_contig (suc idx) (last_dim, packed size) pushed
        (if leb first_contig idx then contig - 1 else contig) dims in
    if not (dim == last_dim) then push else elim last_phys [
      | packed l ↦ elim phys [
        | packed n ↦ if ltb (l * n) (2 ^ 32) then merge (l * n) else panic
        | dynamic ↦ push
        | odd_even _ ↦ push
      ]
      | dynamic ↦ elim phys [ dynamic ↦ panic | packed _ ↦ push | odd_even _ ↦ push ]
      | odd_even _ ↦ elim phys [ odd_even _ ↦ panic | dynamic ↦ push | packed _ ↦ push ]
    ]

unfoldable pub merge_consecutive_dimensions : Layout → ℕ → Outcome (Layout × ℕ)
merge_consecutive_dimensions [] source_contig = panic
merge_consecutive_dimensions (d ∷ dims) source_contig = do
  assert (leb source_contig (length (d ∷ dims)))
  merge_loop (length (d ∷ dims) - source_contig) 0 d [] source_contig dims

unfoldable pub contiguous_full : Layout → Outcome ℕ
contiguous_full dims = if ltb (length dims) 256 then done (length dims) else panic

unfoldable pub contiguous_none : ℕ
contiguous_none = 0

unfoldable pub new : List Dim → Outcome Layout
new dims = do
  assert (not (is_empty dims))
  assert (dynamic_first [] dims && all_mentioned dims)
  assert (no_consecutive dims && all_of (λ d. is_proper d.1) dims)
  full ← contiguous_full dims
  merged ← merge_consecutive_dimensions dims full
  done merged.0

abbrev pub row_major_dims : ℕ → List Dim
row_major_dims rank = map (λ d. (d, dynamic)) (range_from 0 rank)

unfoldable pub row_major : ℕ → Outcome Layout
row_major rank = new (row_major_dims rank)

unfoldable pub col_major : ℕ → Outcome Layout
col_major rank = new (map (λ d. (d, dynamic)) (reverse (range_from 0 rank)))

unfoldable pub nhwc : Outcome Layout
nhwc = new ((0, dynamic) ∷ (2, dynamic) ∷ (3, dynamic) ∷ (1, dynamic) ∷ [])

unfoldable pub is_row_major_from : ℕ → Layout → Bool
is_row_major_from i [] = true
is_row_major_from i ((d, s) ∷ dims) = i == d && is_dynamic s && is_row_major_from (suc i) dims

unfoldable pub is_row_major : Layout → Bool
is_row_major dims = is_row_major_from 0 dims
