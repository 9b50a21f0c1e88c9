-- ===== src/Imp.antt =====
-- morello/src/imp/ and the rest of morello/src/cost.rs: the tree of an implementation, its main
-- cost, its peak memory and its depth.
--
-- A node is what the Rust node stores for its costs, above its children. The fields that only
-- printing, binding and scheduling read are left out. Arithmetic wraps as in a release build.
pub mod Peaks
pub mod Substitution
pub mod Loops
mod Tests
mod PeakMemory
unfoldable pub use PeakMemory.*
use morello.Base.{
  ℕ, zero, suc, ◌+◌, ◌-◌, ◌*◌, ◌/◌, ◌%◌, ◌^◌, max, Bool, true, false, ◌&&◌, not, Option, none, some,
  List, [], ◌∷◌, ◌++◌, map, ◌==◌, if◌then◌else◌, length, replicate, all_of, u32, u64,
  saturating_add32, saturating_mul32, saturating_add8, Outcome, done, panic, ◌>>=◌, ◌>>◌, assert,
  at,
}
use morello.Utils.Bits.{bit_length, bit_length_inverse, next_binary_power}
use morello.Memory.{
  MemVec, MemoryAllocation, simple, inner, pipeline, no_allocation, level_count, zero_vec,
  snap_memvec_up,
}
use morello.Cost.{Cost}

-- A loop's tile, by the axes, the tiled tensor's shape and the step sizes of its dimensions.
pub record LoopTile : Type 0 where
  pub axes : List ℕ
  pub origin_shape : List ℕ
  pub step_sizes : List ℕ

-- What a move reads of its source and of the tensor that it introduces.
pub record Move : Type 0 where
  pub src_hit_cost : ℕ
  pub dest_hit_cost : ℕ
  pub src_cache_lines : ℕ
  pub dest_cache_lines : ℕ
  pub src_is_contiguous : Bool
  pub introduced_bytes : List ℕ

-- The variants of `ImplNode`, without their children. A pipeline has the bytes of its
-- intermediates on each level; a kernel has its cost and allocation.
pub data Own : Type 0 where
  loop : List LoopTile → Bool → Own
  move_let : Move → Own
  block : Own
  pipe : List (List ℕ) → Own
  kernel : ℕ → MemoryAllocation → Own

mutual
  pub data ImplNode (S : Type 0) : Type 0 where
    spec_app : S → ImplNode S
    node : Own → ImplNodes S → ImplNode S

  pub data ImplNodes (S : Type 0) : Type 0 where
    leaf : ImplNodes S
    child : ImplNode S → ImplNodes S → ImplNodes S

-- `first_dim_per_axis`: the tiles' dimensions, with the first one of each axis only.
unfoldable pub tile_dims : LoopTile → ℕ → List ℕ → List (LoopTile × (ℕ × ℕ))
tile_dims t i [] = []
tile_dims t i (axis ∷ axes) = (t, (i, axis)) ∷ tile_dims t (suc i) axes

unfoldable pub all_dims : List LoopTile → List (LoopTile × (ℕ × ℕ))
all_dims [] = []
all_dims (t ∷ tiles) = tile_dims t 0 t.axes ++ all_dims tiles

unfoldable pub unique_by_axis : List ℕ → List (LoopTile × (ℕ × ℕ)) → List (LoopTile × (ℕ × ℕ))
unique_by_axis seen [] = []
unique_by_axis seen ((t, (i, axis)) ∷ dims) =
    let fresh = (t, (i, axis)) ∷ unique_by_axis (axis ∷ seen) dims in
    let skip = unique_by_axis seen dims in
    if all_of (λ a. not (a == axis)) seen then fresh else skip

unfoldable pub first_dim_per_axis : List LoopTile → List (LoopTile × (ℕ × ℕ))
first_dim_per_axis tiles = unique_by_axis [] (all_dims tiles)

-- `full_steps_dim` and `full_steps`.
unfoldable pub full_steps_dim : LoopTile → ℕ → Outcome ℕ
full_steps_dim t dim = do
  origin_size ← at t.origin_shape dim
  step ← at t.step_sizes dim
  done (origin_size / step)

unfoldable pub steps_product : (LoopTile → ℕ → Outcome ℕ) → List (LoopTile × (ℕ × ℕ)) → Outcome ℕ
steps_product f [] = done 1
steps_product f ((t, (i, axis)) ∷ dims) = do
  n ← f t i
  rest ← steps_product f dims
  done (u32 (n * rest))

unfoldable pub full_steps : List LoopTile → Outcome ℕ
full_steps tiles = steps_product full_steps_dim (first_dim_per_axis tiles)

-- The standard library's `u32::div_ceil`.
unfoldable pub div_ceil_u32 : ℕ → ℕ → ℕ
div_ceil_u32 a b = a / b + (if a % b == 0 then 0 else 1)

unfoldable pub par_tile_overhead : ℕ
par_tile_overhead = 45000

unfoldable pub move_cost : Move → ℕ
move_cost m =
    let src_cost = u32 (m.src_hit_cost * m.src_cache_lines) in
    let dest_cost = u32 (m.dest_hit_cost * m.dest_cache_lines) in
    let cost = u32 (src_cost + dest_cost) in
    if not m.src_is_contiguous then u32 (cost * 2) else cost

-- `reduce` with `saturating_add`, as a fold from the first cost.
unfoldable pub saturating_sum : ℕ → List ℕ → ℕ
saturating_sum a [] = a
saturating_sum a (b ∷ costs) = saturating_sum (saturating_add32 a b) costs

unfoldable pub reduce_costs : List ℕ → Outcome ℕ
reduce_costs [] = panic
reduce_costs (c ∷ costs) = done (saturating_sum c costs)

unfoldable pub memory_allocated : Own → MemoryAllocation
memory_allocated (loop tiles parallel) = no_allocation
memory_allocated (move_let m) = simple m.introduced_bytes
memory_allocated block = no_allocation
memory_allocated (pipe intermediates) = pipeline intermediates
memory_allocated (kernel cost allocation) = allocation

unfoldable pub max_depth : List Cost → ℕ
max_depth [] = 0
max_depth (c ∷ costs) = max c.depth (max_depth costs)

-- `divrem`'s `div_ceil`, and the processors of the target.
module _ (div_ceil : ℕ → ℕ → ℕ) (processors : ℕ) where
  unfoldable pub steps_dim : LoopTile → ℕ → Outcome ℕ
  steps_dim t dim = do
    origin_size ← at t.origin_shape dim
    step ← at t.step_sizes dim
    done (div_ceil origin_size step)

  unfoldable pub steps : List LoopTile → Outcome ℕ
  steps tiles = steps_product steps_dim (first_dim_per_axis tiles)

  -- The factor and the overhead of a loop.
  unfoldable pub loop_factor : List LoopTile → Bool → Outcome (ℕ × ℕ)
  loop_factor tiles false = do n ← steps tiles; done (n, 0)
  loop_factor tiles true = do
    n ← steps tiles
    main_steps ← full_steps tiles
    let boundary_steps = u32 (n + 2 ^ 32 - main_steps) in
        done (u32 (div_ceil_u32 main_steps processors + boundary_steps), par_tile_overhead)

  unfoldable pub compute_main_cost : Own → List ℕ → Outcome ℕ
  compute_main_cost (loop tiles parallel) child_costs = do
    f ← loop_factor tiles parallel
    c ← at child_costs 0
    done (u32 (saturating_mul32 c f.0 + f.1))
  compute_main_cost (move_let m) child_costs = done (saturating_sum (move_cost m) child_costs)
  compute_main_cost block child_costs = reduce_costs child_costs
  compute_main_cost (pipe intermediates) child_costs = reduce_costs child_costs
  compute_main_cost (kernel cost allocation) child_costs = done cost

  unfoldable pub from_child_costs : Own → List Cost → Outcome Cost
  from_child_costs own child_costs = do
    main_cost ← compute_main_cost own (map (λ c. c.main) child_costs)
    peaks ← peak_memory_from_child_peaks (memory_allocated own) (map (λ c. c.peaks) child_costs)
    done (record {
      main = main_cost;
      peaks = snap_memvec_up peaks false;
      depth = saturating_add8 (max_depth child_costs) 1;
    })

  -- A Spec application costs nothing and allocates nothing.
  unfoldable pub spec_app_cost : Cost
  spec_app_cost = record { main = 0; peaks = snap_memvec_up zero_vec false; depth = 1 }

  module _ {S : Type 0} where
    unfoldable mutual
      pub from_impl : ImplNode S → Outcome Cost
      from_impl (spec_app s) = done spec_app_cost
      from_impl (node own children) = do
        child_costs ← from_impls children
        from_child_costs own child_costs

      pub from_impls : ImplNodes S → Outcome (List Cost)
      from_impls leaf = done []
      from_impls (child k children) = do c ← from_impl k; cs ← from_impls children; done (c ∷ cs)

    -- `compute_impl_cost`: the costs are an iterator, whose rest is passed on.
    unfoldable mutual
      pub compute_impl_cost : ImplNode S → List Cost → Outcome (Cost × List Cost)
      compute_impl_cost (spec_app s) [] = panic
      compute_impl_cost (spec_app s) (c ∷ costs) = done (c, costs)
      compute_impl_cost (node own children) costs = do
        r ← compute_impl_costs children costs
        c ← from_child_costs own r.0
        done (c, r.1)

      pub compute_impl_costs : ImplNodes S → List Cost → Outcome (List Cost × List Cost)
      compute_impl_costs leaf costs = done ([], costs)
      compute_impl_costs (child k children) costs = do
        r ← compute_impl_cost k costs
        rs ← compute_impl_costs children r.1
        done (r.0 ∷ rs.0, rs.1)

-- `visit_subspecs_erased`, with a visitor that changes a state and may stop the traversal.
module _ {S A : Type 0} (f : S → A → A × Bool) where
  unfoldable mutual
    pub visit_subspecs : ImplNode S → A → A × Bool
    visit_subspecs (spec_app s) a = f s a
    visit_subspecs (node own children) a = visit_children children a

    pub visit_children : ImplNodes S → A → A × Bool
    visit_children leaf a = (a, true)
    visit_children (child k children) a =
        let r = visit_subspecs k a in
        let rest = visit_children children r.0 in if not r.1 then (r.0, false) else rest

-- `visit_leaves`, with the same kind of visitor.
module _ {S A : Type 0} (f : ImplNode S → A → A × Bool) where
  unfoldable mutual
    pub visit_leaves : ImplNode S → A → A × Bool
    visit_leaves (spec_app s) a = f (spec_app s) a
    visit_leaves (node own leaf) a = f (node own leaf) a
    visit_leaves (node own (child k children)) a = visit_leaves_of (child k children) a

    pub visit_leaves_of : ImplNodes S → A → A × Bool
    visit_leaves_of leaf a = (a, true)
    visit_leaves_of (child k children) a =
        let r = visit_leaves k a in
        let rest = visit_leaves_of children r.0 in if not r.1 then (r.0, false) else rest
