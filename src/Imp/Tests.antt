-- ===== src/Imp/Tests.antt =====
-- Implementations of a few nodes, and the theorems of Imp at them.
use morello.Base.{
  ℕ, ◌-◌, ◌^◌, ◌≡◌, refl, true, List, [], ◌∷◌, ◌++◌, map, done, panic, ◌>>=◌, ceiling,
}
use morello.Utils.Bits.{bit_length, leading_zeros, bit_length_inverse}
use morello.Memory.{no_allocation, snap_memvec_up}
use morello.Cost.{Cost}
use morello.Imp
use morello.Imp.{
  LoopTile, Own, loop, block, kernel, pipe, ImplNode, spec_app, node, leaf, child,
  compute_impl_cost, compute_main_cost, from_impl, from_child_costs, par_tile_overhead,
  reduce_costs, loop_factor, steps, visit_subspecs,
}
use morello.Imp.Substitution.{substitute, specs, compute_impl_cost-substitute}
use morello.Imp.Loops.{compute_main_cost-parallel_wraps}
use morello.Imp.Peaks.{from_child_costs-pipe}

-- Two tiles, of 16 by 8 and of 8, that share the axis 1: 4 by 2 steps.
abbrev tiles : List LoopTile
tiles =
    record { axes = 0 ∷ 1 ∷ []; origin_shape = 16 ∷ 8 ∷ []; step_sizes = 4 ∷ 4 ∷ [] }
    ∷ record { axes = 1 ∷ []; origin_shape = 8 ∷ []; step_sizes = 4 ∷ [] }
    ∷ []

steps_run : steps ceiling 4 tiles ≡ done 8
unfolding steps Imp.steps_product Imp.first_dim_per_axis Imp.unique_by_axis Imp.all_dims
    Imp.tile_dims Imp.steps_dim
steps_run = refl

factor_run : loop_factor ceiling 4 tiles true ≡ done (2, par_tile_overhead)
unfolding loop_factor steps Imp.steps_product Imp.first_dim_per_axis Imp.unique_by_axis Imp.all_dims
    Imp.tile_dims Imp.steps_dim Imp.full_steps Imp.full_steps_dim Imp.div_ceil_u32
factor_run = refl

-- A block of two Specs; Spec `s` is implemented by a kernel of cost `s`.
abbrev two_specs : ImplNode ℕ
two_specs = node block (child (spec_app 3) (child (spec_app 4) leaf))

abbrev kernel_of : ℕ → ImplNode ℕ
kernel_of s = node (kernel s no_allocation) leaf

abbrev kernel_cost : ℕ → Cost
kernel_cost s = record { main = s; peaks = 0 ∷ 0 ∷ 0 ∷ 0 ∷ []; depth = 1 }

kernel_run : (s : ℕ) → from_impl ceiling 4 (kernel_of s) ≡ done (kernel_cost s)
unfolding from_impl from_child_costs compute_main_cost Imp.peak_memory_from_child_peaks
    Imp.memory_allocated snap_memvec_up Imp.max_depth Imp.peak_simple bit_length leading_zeros
    bit_length_inverse
kernel_run s = refl

compute_impl_cost-substitute_example :
    compute_impl_cost ceiling 4 two_specs (map kernel_cost (specs two_specs) ++ [])
    ≡ (from_impl ceiling 4 (substitute kernel_of two_specs) >>= λ c. done (c, []))
compute_impl_cost-substitute_example =
    compute_impl_cost-substitute ceiling 4 kernel_of kernel_cost kernel_run two_specs []

compute_main_cost-parallel_wraps_example :
    compute_main_cost ceiling 4 (loop tiles true) ((2 ^ 32 - 1) ∷ []) ≡ done 44999
compute_main_cost-parallel_wraps_example =
    compute_main_cost-parallel_wraps ceiling 4 tiles 1 factor_run

-- The pipeline of two stages and one intermediate tensor.
from_child_costs-pipe_example :
    from_child_costs ceiling 4
      (pipe ((64 ∷ 0 ∷ 0 ∷ 0 ∷ []) ∷ []))
      (kernel_cost 3 ∷ kernel_cost 4 ∷ [])
    ≡ panic
from_child_costs-pipe_example =
    from_child_costs-pipe ceiling 4 ((64 ∷ 0 ∷ 0 ∷ 0 ∷ []) ∷ [])
      (kernel_cost 3 ∷ kernel_cost 4 ∷ []) refl
