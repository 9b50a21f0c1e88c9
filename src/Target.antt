-- ===== src/Target.antt =====
-- morello/src/target/mod.rs and morello/src/target/cpu.rs: memory levels and what a CPU target
-- says of itself.

use Prim.Native.Nat.{Ordering}
use morello.Base.{ℕ, Bool, true, false, not, Option, none, some, List, [], ◌∷◌, Outcome, at}

-- The trait `MemoryLevel`.
pub record MemoryLevel (Level : Type 0) : Type 0 where
  pub is_addressed : Level → Bool
  pub can_parallel_tile : Level → Bool
  pub cache_hit_cost : Level → ℕ
  pub vector_bytes : Level → List ℕ

abbrev pub no_sizes : List ℕ → Bool
no_sizes [] = true
no_sizes _ = false

unfoldable pub vector_rf : {Level : Type 0} → MemoryLevel Level → Level → Bool
vector_rf memory level = not (no_sizes (memory.vector_bytes level))

pub data CpuMemoryLevel : Type 0 where
  rf vrf l1 gl : CpuMemoryLevel

unfoldable pub cpu_is_addressed : CpuMemoryLevel → Bool
cpu_is_addressed rf = true
cpu_is_addressed vrf = true
cpu_is_addressed l1 = false
cpu_is_addressed gl = true

unfoldable pub cpu_can_parallel_tile : CpuMemoryLevel → Bool
cpu_can_parallel_tile rf = false
cpu_can_parallel_tile vrf = false
cpu_can_parallel_tile gl = true
cpu_can_parallel_tile l1 = true

unfoldable pub cpu_cache_hit_cost : CpuMemoryLevel → ℕ
cpu_cache_hit_cost rf = 0
cpu_cache_hit_cost vrf = 0
cpu_cache_hit_cost l1 = 10
cpu_cache_hit_cost gl = 100

unfoldable pub cpu_vector_bytes : CpuMemoryLevel → List ℕ
cpu_vector_bytes vrf = 16 ∷ 32 ∷ []
cpu_vector_bytes _ = []

abbrev pub cpu_memory : MemoryLevel CpuMemoryLevel
cpu_memory = record {
  is_addressed = cpu_is_addressed;
  can_parallel_tile = cpu_can_parallel_tile;
  cache_hit_cost = cpu_cache_hit_cost;
  vector_bytes = cpu_vector_bytes;
}

-- `partial_cmp`.
unfoldable pub level_cmp : CpuMemoryLevel → CpuMemoryLevel → Option Ordering
level_cmp rf rf = some Ordering.eq
level_cmp vrf vrf = some Ordering.eq
level_cmp l1 l1 = some Ordering.eq
level_cmp gl gl = some Ordering.eq
level_cmp rf vrf = none
level_cmp vrf rf = none
level_cmp rf l1 = some Ordering.lt
level_cmp rf gl = some Ordering.lt
level_cmp vrf l1 = some Ordering.lt
level_cmp vrf gl = some Ordering.lt
level_cmp l1 rf = some Ordering.gt
level_cmp gl rf = some Ordering.gt
level_cmp l1 vrf = some Ordering.gt
level_cmp gl vrf = some Ordering.gt
level_cmp l1 gl = some Ordering.lt
level_cmp gl l1 = some Ordering.gt

unfoldable pub level_apply : CpuMemoryLevel → ℕ
level_apply rf = 0
level_apply vrf = 1
level_apply l1 = 2
level_apply gl = 3

unfoldable pub cpu_levels : List CpuMemoryLevel
cpu_levels = rf ∷ vrf ∷ l1 ∷ gl ∷ []

-- The match on the coordinate, as the list of its results; any other coordinate panics.
unfoldable pub level_apply_inverse : ℕ → Outcome CpuMemoryLevel
level_apply_inverse i = at (rf ∷ vrf ∷ l1 ∷ gl ∷ []) i

unfoldable pub line_size : ℕ
line_size = 32

unfoldable pub possible_destination_levels : CpuMemoryLevel → List CpuMemoryLevel
possible_destination_levels rf = rf ∷ []
possible_destination_levels vrf = vrf ∷ []
possible_destination_levels l1 = l1 ∷ rf ∷ vrf ∷ []
possible_destination_levels gl = gl ∷ l1 ∷ []

-- What the trait `Target` says, with the order and the equality of its levels.
pub record Target (Level : Type 0) : Type 0 where
  pub memory : MemoryLevel Level
  pub line : ℕ
  pub levels : List Level
  pub level_lt : Level → Level → Bool
  pub same_level : Level → Level → Bool
