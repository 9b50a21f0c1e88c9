-- ===== src/Scheduling/Actions.antt =====
-- morello/src/spec.rs: the actions that a Spec proposes, `LogicalSpec::actions` and the functions
-- that it chains.
--
-- The iterators are their lists, which `actions` collects. What a target proposes itself is an
-- argument, the record `Proposals` of the functions of `Target` that are called.
use morello.Base.{
  ℕ, suc, max, Bool, true, false, not, ◌&&◌, Option, none, some, List, [], ◌∷◌, ◌++◌, map, length,
  set, at, range_from, all_of, ltb, ◌==◌, if◌then◌else◌, Outcome, done, panic, ◌>>=◌, ◌>>◌, assert,
}
use morello.Common.{Dtype, higher_precision_types}
use morello.Utils.Bits.{is_power_of_two}
use morello.Layout.{Layout}
use morello.Layout.Update.{same_shape}
use morello.Target.{MemoryLevel, no_sizes}
use morello.TensorSpec.{TensorSpec, can_move_to}
use morello.Spec.{matmul, conv, move_spec, zero_spec, output_idx, parameter_shapes}
use morello.Spec.Logical.{
  LogicalSpec, primitive, compose, parameters, logical_output_idx, serial_only,
}
use morello.Spec.Actions.{
  dim_range, gen_vector_sizes, gen_vector_sizes_opt, can_spatial_split, split_actions,
}
use morello.Scheduling.{
  TileOut, single_loop, multi_loop, Action, tile_out, split, move, to_accum, peel, spatial_split,
}

-- `flat_map`, of a function that may panic.
abbrev pub flat_map {ℓ κ} :
    {A : Type ℓ} {B : Type κ} → (A → Outcome (List B)) → List A → Outcome (List B)
flat_map f [] = done []
flat_map f (x ∷ xs) = do ys ← f x; rest ← flat_map f xs; done (ys ++ rest)

abbrev pub kept {ℓ} : {A : Type ℓ} → (A → Bool) → List A → List A
kept test [] = []
kept test (x ∷ xs) = let rest = kept test xs in if test x then x ∷ rest else rest

abbrev pub max_of : ℕ → List ℕ → ℕ
max_of m [] = m
max_of m (n ∷ ns) = max_of (max m n) ns

abbrev pub iter_max : List ℕ → Outcome ℕ
iter_max [] = panic
iter_max (n ∷ ns) = done (max_of n ns)

-- The shapes with one dimension made smaller.
unfoldable pub smaller_in : List ℕ → Option ℕ → ℕ → Outcome (List (List ℕ))
smaller_in shape depth dim = do
  size ← at shape dim
  sizes ← dim_range size false depth
  done (map (λ (d : ℕ). set shape dim d) sizes)

unfoldable pub gen_tile_sizes : List ℕ → Bool → Bool → Option ℕ → Outcome (List (List ℕ))
gen_tile_sizes [] drop_given multi_dim depth = done []
gen_tile_sizes (one_dim ∷ []) drop_given multi_dim depth = do
  sizes ← dim_range one_dim true depth
  done (map (λ (d : ℕ). d ∷ []) (kept (λ (d : ℕ). not (drop_given && d == one_dim)) sizes))
gen_tile_sizes (dim ∷ next ∷ dims) drop_given multi_dim depth =
    let tails = gen_tile_sizes (next ∷ dims) false multi_dim depth in
    let shape = dim ∷ next ∷ dims in
    let own = if not drop_given && all_of is_power_of_two shape then shape ∷ [] else [] in
    if multi_dim
    then (tails >>= λ rests.
        flat_map
          (λ rest. dim_range dim true depth >>= λ sizes. done (
            kept (λ (new_shape : List ℕ). not (drop_given && same_shape shape new_shape))
              (map (λ (d : ℕ). d ∷ rest) sizes)))
          rests)
    else (flat_map (smaller_in shape depth) (range_from 0 (length shape)) >>= λ smaller.
        done (smaller ++ own))

-- An action for the tile, and a second one that runs in parallel if the Spec allows it.
unfoldable pub with_parallel :
    {Level Kernel : Type 0} → Bool → (Bool → TileOut) → List (Action Level Kernel)
with_parallel serial tile =
    tile_out (tile false) ∷ (if not serial then tile_out (tile true) ∷ [] else [])

unfoldable pub single_loops :
    {Level Kernel : Type 0} → Bool → ℕ → ℕ → Outcome (List (Action Level Kernel))
single_loops serial rank size =
    flat_map
      (λ (dim : ℕ).
        assert (ltb dim 256)
        >> done (with_parallel serial (λ parallel. single_loop dim size parallel)))
      (range_from 0 rank)

-- The `todo!()` of a Compose panics.
unfoldable pub logical_parameter_shapes :
    {Level : Type 0} → LogicalSpec Level → Outcome (List (List ℕ))
logical_parameter_shapes (primitive basics auxes serial) = parameter_shapes basics
logical_parameter_shapes (compose components auxes serial) = panic

-- The functions of `Target` that propose layouts, levels and actions.
pub record Proposals (Level Kernel : Type 0) : Type 0 where
  pub memory : MemoryLevel Level
  pub levels : List Level
  pub move_destination_layouts : List ℕ → Dtype → List Layout
  pub possible_destination_levels : Level → List Level
  pub target_actions : LogicalSpec Level → List (Action Level Kernel)

module _ {Level Kernel : Type 0} (target : Proposals Level Kernel) where
  unfoldable pub tile_out_actions :
      LogicalSpec Level → Option ℕ → Outcome (List (Action Level Kernel))
  tile_out_actions logical depth = do
    shapes ← logical_parameter_shapes logical
    idx ← logical_output_idx logical
    output_shape ← at shapes idx
    let serial = serial_only logical
    if not serial
        then (gen_tile_sizes output_shape true true depth >>= λ shapes.
            flat_map (λ shape. done (with_parallel serial (λ parallel. multi_loop shape parallel)))
              shapes)
        else (iter_max output_shape >>= λ max_dim_size.
            dim_range max_dim_size true depth >>= λ sizes.
            flat_map (single_loops serial (length output_shape)) sizes)

  -- The peels to a level, one for each size of its vectors if it has vectors.
  unfoldable pub peels_to : Layout → Dtype → Level → Outcome (List (Action Level Kernel))
  peels_to layout dtype level =
      let vector_bytes = target.memory.vector_bytes level in
      if not (no_sizes vector_bytes)
      then (gen_vector_sizes dtype vector_bytes >>= λ sizes.
          done (map (λ (n : ℕ). peel layout level (some n)) sizes))
      else done (peel layout level none ∷ [])

  unfoldable pub peel_actions : LogicalSpec Level → Outcome (List (Action Level Kernel))
  peel_actions (primitive basics auxes serial) = panic
  peel_actions (compose components auxes serial) = do
    next ← at components 1
    shapes ← parameter_shapes next
    shape ← at shapes (output_idx next.typ)
    dtype ← at next.dtypes (output_idx next.typ)
    flat_map
        (λ level.
          flat_map (λ layout. peels_to layout dtype level)
            (target.move_destination_layouts shape dtype))
        target.levels

  -- The moves of an operand to a level, by element type and vector size.
  unfoldable pub moves_to :
      ℕ → TensorSpec Level → Layout → Level → Outcome (List (Action Level Kernel))
  moves_to i operand layout level = do
    possible ← can_move_to target.memory operand layout level
    if not possible
        then done []
        else flat_map
            (λ dtype.
              gen_vector_sizes_opt operand.dtype (target.memory.vector_bytes level) >>= λ sizes.
              done (
                map
                  (λ vector_size. move (record {
                    source_idx = i;
                    dtype = dtype;
                    level = level;
                    layout = layout;
                    vector_size = vector_size;
                  }))
                  sizes))
            (operand.dtype ∷ higher_precision_types operand.dtype)

  unfoldable pub moves_of : ℕ → TensorSpec Level → Outcome (List (Action Level Kernel))
  moves_of i operand =
      assert (ltb i 256)
      >> flat_map
          (λ layout.
            flat_map (moves_to i operand layout)
              (target.possible_destination_levels operand.aux.level))
          (target.move_destination_layouts operand.shape operand.dtype)

  -- The loop of `move_actions`, from operand `i` on.
  unfoldable pub moves_from : ℕ → List (TensorSpec Level) → Outcome (List (Action Level Kernel))
  moves_from i [] = done []
  moves_from i (operand ∷ operands) = do
    moves ← moves_of i operand
    rest ← moves_from (suc i) operands
    done (moves ++ rest)

  unfoldable pub move_actions : LogicalSpec Level → Outcome (List (Action Level Kernel))
  move_actions logical = do ps ← parameters target.memory logical; moves_from 0 ps

  -- What `actions` adds for the Spec's own type.
  unfoldable pub own_actions : LogicalSpec Level → Option ℕ → Outcome (List (Action Level Kernel))
  own_actions (compose components auxes serial) depth =
      peel_actions (compose components auxes serial)
  own_actions (primitive basics auxes serial) depth = elim basics.typ [
    | matmul accum ↦
        if accum
        then (split_actions target.memory (primitive basics auxes serial) depth >>= λ ks.
            done (map (λ (k : ℕ). split k) ks))
        else done (to_accum ∷ [])
    | conv accum ↦
        if accum
        then (can_spatial_split target.memory (primitive basics auxes serial) >>= λ can.
            done (if can then spatial_split ∷ [] else []))
        else done (to_accum ∷ [])
    | move_spec ↦ done []
    | zero_spec ↦ done []
  ]

  unfoldable pub actions : LogicalSpec Level → Option ℕ → Outcome (List (Action Level Kernel))
  actions logical depth = do
    tilings ← tile_out_actions logical depth
    moves ← move_actions logical
    own ← own_actions logical depth
    done (tilings ++ moves ++ target.target_actions logical ++ own)
