-- ===== src/TensorSpec.antt =====
-- morello/src/tensorspec.rs and morello/src/alignment.rs: the specification of a tensor, its
-- canonical form, and the alignment of its tiles.
--
-- The operations that mutate a `TensorSpec` return the new one. Products of dimension sizes wrap
-- as in a release build; the debug assertions panic.
mod Tests
pub mod Squeeze
pub mod CacheLines
pub mod Alignment
use mathlib.Core.List.{reverse}
use morello.Base.{
  ℕ, zero, suc, ◌+◌, ◌-◌, ◌*◌, ◌%◌, ◌^◌, Bool, true, false, not, ◌&&◌, ◌||◌, Option, none, some,
  List, [], ◌∷◌, map, length, all_of, leb, ltb, ◌==◌, if◌then◌else◌, u32, u64, Outcome, done, panic,
  ◌>>=◌, ◌>>◌, assert, at,
}
use morello.Common.{Dtype, size}
use morello.Layout.{
  PhysDim, dynamic, packed, odd_even, Dim, Layout, Result, ok, err, applies_to_shape,
  expand_physical_shape, contiguous_full, row_major, physical_size, is_row_major,
}
use morello.Layout.Update.{
  FindPosition, first_contig_idx, dim_drop, update_for_tiling,
  has_noncanon_size_one_dynamic_dimensions, packings, same_shape,
}
use morello.Spec.{dim_size}
use morello.Target.{MemoryLevel, vector_rf, no_sizes}

pub record TensorSpecAux (Level : Type 0) : Type 0 where
  pub contig : ℕ
  pub aligned : Bool
  pub level : Level
  pub layout : Layout
  pub vector_size : Option ℕ

pub record TensorSpec (Level : Type 0) : Type 0 where
  pub shape : List ℕ
  pub dtype : Dtype
  pub aux : TensorSpecAux Level

abbrev pub has_vector : Option ℕ → Bool
has_vector none = false
has_vector (some _) = true

abbrev pub same_bool : Bool → Bool → Bool
same_bool true b = b
same_bool false b = not b

unfoldable pub same_phys : PhysDim → PhysDim → Bool
same_phys dynamic dynamic = true
same_phys (packed a) (packed b) = a == b
same_phys (odd_even a) (odd_even b) = a == b
same_phys _ _ = false

unfoldable pub same_layout : Layout → Layout → Bool
same_layout [] [] = true
same_layout ((d, p) ∷ dims) ((e, q) ∷ other) = d == e && same_phys p q && same_layout dims other
same_layout _ _ = false

-- `shape.iter().zip(..).all(|(i, o)| i <= o)`.
unfoldable pub all_at_most : List ℕ → List ℕ → Bool
all_at_most (i ∷ shape) (o ∷ outer) = leb i o && all_at_most shape outer
all_at_most _ _ = true

-- The product of u32 values.
unfoldable pub product_u32 : List ℕ → ℕ
product_u32 [] = 1
product_u32 (d ∷ shape) = u32 (d * product_u32 shape)

unfoldable pub volume : List ℕ → Outcome ℕ
volume shape = dim_size (product_u32 shape)

-- The walk over the layout, from its last dimension outwards, for a dimension whose one packing
-- has the size of the whole logical dimension.
unfoldable pub whole_packing : List Dim → List ℕ → List Dim → Outcome Bool
whole_packing dims shape [] = done false
whole_packing dims shape ((d, s) ∷ rest) =
    let outer = whole_packing dims shape rest in
    if packings dims d == 1
    then (at shape d >>= λ n. (if same_phys s (packed n) then done true else outer))
    else outer

unfoldable pub has_packings : List Dim → Bool
has_packings dims = not (all_of (λ (d : Dim). packings dims d.0 == 0) dims)

unfoldable pub packed_whole : List Dim → List ℕ → Outcome Bool
packed_whole dims shape =
    if has_packings dims then whole_packing dims shape (reverse dims) else done false

module _ {Level : Type 0} where
  unfoldable pub is_contiguous : TensorSpec Level → Outcome Bool
  is_contiguous t = do full ← contiguous_full t.aux.layout; done (t.aux.contig == full)

  unfoldable pub bytes_used : TensorSpec Level → Outcome ℕ
  bytes_used t = do v ← volume t.shape; done (u64 (size t.dtype * v))

  -- The tests after that of the packings.
  unfoldable pub unpacked_is_canonical : TensorSpecAux Level → List ℕ → Outcome Bool
  unpacked_is_canonical aux shape =
      has_noncanon_size_one_dynamic_dimensions aux.layout shape >>= λ ones.
      if ones then done false else (do
        full ← contiguous_full aux.layout
        first ← first_contig_idx full aux.contig
        if first == 0 then done true else (do
          r ← physical_size aux.layout (first - 1) shape
          elim r [ ok n ↦ done (not (n == 1)) | err _ ↦ panic ]))

  unfoldable pub aux_is_canonical : TensorSpecAux Level → List ℕ → Outcome Bool
  aux_is_canonical aux shape =
      if not (is_row_major aux.layout) && all_of (λ d. d == 1) shape then done false else (do
        whole ← packed_whole aux.layout shape
        if whole then done false else unpacked_is_canonical aux shape)

module _ {Level : Type 0} (memory : MemoryLevel Level) where
  unfoldable pub new_noncanon_with_aux :
      List ℕ → Dtype → TensorSpecAux Level → Outcome (TensorSpec Level)
  new_noncanon_with_aux shape dtype aux = do
    assert (not (no_sizes shape))
    assert (same_bool (has_vector aux.vector_size) (vector_rf memory aux.level))
    done (record { shape = shape; dtype = dtype; aux = aux })

  unfoldable pub is_valid_tile_shape : TensorSpec Level → List ℕ → Bool → Outcome Bool
  is_valid_tile_shape t shape parallel_loop = do
    assert (length shape == length t.shape)
    assert (all_at_most shape t.shape)
    let stuck =
        parallel_loop
        && not (memory.can_parallel_tile t.aux.level)
        && not (same_shape shape t.shape)
    let one = all_of (λ d. d == 1) shape
    if stuck then done false else (if one then done true else applies_to_shape t.aux.layout shape)

  unfoldable pub set_level : TensorSpec Level → Level → Option ℕ → Outcome (TensorSpec Level)
  set_level t level vector_size = do
    assert (same_bool (vector_rf memory level) (has_vector vector_size))
    done (record t { aux = record t.aux { level = level; vector_size = vector_size } })

  unfoldable pub can_move_to : TensorSpec Level → Layout → Level → Outcome Bool
  can_move_to t dest_layout dest_level =
      if not (memory.is_addressed dest_level) && not (same_layout dest_layout t.aux.layout)
      then done false
      else if no_sizes (memory.vector_bytes dest_level)
      then done true
      else (do
        v ← volume t.shape
        done (
            not (
              all_of (λ vb. not (u32 (v * size t.dtype) % vb == 0))
                (memory.vector_bytes dest_level))))

module _ (find_position : FindPosition) {Level : Type 0} where
  unfoldable pub aux_canonicalize :
      TensorSpecAux Level → List ℕ → Outcome (Result (TensorSpecAux Level))
  aux_canonicalize aux shape = do
    r ← update_for_tiling find_position aux.layout shape shape aux.contig
    elim r [
      | err e ↦ done (err e)
      | ok (new_layout, new_contig) ↦
          done (ok (record aux { layout = new_layout; contig = new_contig }))
    ]

  unfoldable pub canonicalize : TensorSpec Level → Outcome (Result (TensorSpec Level))
  canonicalize t = do
    r ← aux_canonicalize t.aux t.shape
    elim r [ err e ↦ done (err e) | ok aux ↦ done (ok (record t { aux = aux })) ]

  unfoldable pub shrink : TensorSpec Level → List ℕ → Bool → Outcome (Result (TensorSpec Level))
  shrink t shape aligned = do
    r ← update_for_tiling find_position t.aux.layout t.shape shape t.aux.contig
    elim r [
      | err e ↦ done (err e)
      | ok (new_layout, new_contig) ↦ done (
          ok (record t {
            shape = shape;
            aux = record t.aux { layout = new_layout; contig = new_contig; aligned = aligned };
          }))
    ]

  unfoldable pub new_canon :
      MemoryLevel Level → List ℕ → Dtype → TensorSpecAux Level → Outcome (TensorSpec Level)
  new_canon memory shape dtype aux = do
    t ← new_noncanon_with_aux memory shape dtype aux
    r ← canonicalize t
    elim r [ err _ ↦ panic | ok canonical ↦ done canonical ]
