-- ===== src/Imp/Loops.antt =====
-- morello/src/imp/loops.rs: the main cost of a loop.
use morello.Base.{
  ℕ, suc, ◌+◌, ◌-◌, ◌^◌, ◌≤◌, ◌<◌, min, ◌≡◌, ap, ◌∙◌, sum, u32_of_lt, mul_mono, true, false, List,
  [], ◌∷◌, u32, saturating_add32, saturating_mul32, done, arith,
}
use morello.Imp.{
  LoopTile, loop, steps, loop_factor, compute_main_cost, par_tile_overhead, saturating_sum,
  reduce_costs,
}

-- The saturating fold is the sum, cut off at the largest word.
saturating_sum-eq-min :
    (a : ℕ) (costs : List ℕ)
    → a < 2 ^ 32
    → saturating_sum a costs ≡ min (a + sum costs) (2 ^ 32 - 1)
unfolding saturating_sum
saturating_sum-eq-min a [] h = omega arith
saturating_sum-eq-min a (b ∷ costs) h =
    let rest = saturating_sum-eq-min (saturating_add32 a b) costs (omega arith) in
    omega (arith, rest)

-- The main cost of a block or a pipeline with stages of 32-bit costs is the sum of their costs,
-- cut off at the largest word: it never wraps, whatever the order of the stages.
pub reduce_costs-eq-min :
    (c : ℕ) (costs : List ℕ)
    → c < 2 ^ 32
    → reduce_costs (c ∷ costs) ≡ done (min (sum (c ∷ costs)) (2 ^ 32 - 1))
unfolding reduce_costs
reduce_costs-eq-min c costs h = ap done (saturating_sum-eq-min c costs h)

module _ (div_ceil : ℕ → ℕ → ℕ) (processors : ℕ) where
  -- A sequential loop that takes at least one step costs at least as much as its body, and its
  -- cost fits 32 bits.
  pub compute_main_cost-sequential :
      (tiles : List LoopTile) (n c : ℕ)
      → c < 2 ^ 32
      → steps div_ceil processors tiles ≡ done (suc n)
      → (cost : ℕ) × (compute_main_cost div_ceil processors (loop tiles false) (c ∷ []) ≡ done cost)
        × ((c ≤ cost) × (cost < 2 ^ 32))
  unfolding compute_main_cost loop_factor
  compute_main_cost-sequential tiles n c h e =
      let cost = saturating_mul32 c (suc n) in
      let fits : u32 (cost + 0) ≡ cost = u32_of_lt (cost + 0) (omega arith) ∙ omega arith in
      (
        cost,
        rw e (ap done fits),
        (let m = mul_mono c 1 (suc n) (omega arith) in omega (arith, m), omega arith),
      )

  -- A parallel loop with a per-thread factor of at least one over a body of the largest 32-bit
  -- cost costs 44,999: adding the overhead wraps.
  pub compute_main_cost-parallel_wraps :
      (tiles : List LoopTile) (n : ℕ)
      → loop_factor div_ceil processors tiles true ≡ done (suc n, par_tile_overhead)
      → compute_main_cost div_ceil processors (loop tiles true) ((2 ^ 32 - 1) ∷ []) ≡ done 44999
  unfolding compute_main_cost par_tile_overhead
  compute_main_cost-parallel_wraps tiles n e =
      let m = mul_mono (2 ^ 32 - 1) 1 (suc n) (omega arith) in
      let cut : saturating_mul32 (2 ^ 32 - 1) (suc n) ≡ 2 ^ 32 - 1 = omega (arith, m) in
      rw e (ap (λ t. done (u32 (t + 45000))) cut)
