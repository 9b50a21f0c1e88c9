-- ===== src/Cost.antt =====
-- morello/src/cost.rs: the costs of implementations and their order.
--
-- `from_impl` and `from_child_costs` stand in Imp.antt, with the tree they measure.
pub mod Order
mod Tests
use Prim.Native.Nat.{compare, Ordering}
use morello.Base.{ℕ, List, [], ◌∷◌}
use morello.Memory.{MemVec}

pub record Cost : Type 0 where
  pub main : ℕ
  pub peaks : MemVec
  pub depth : ℕ

-- The loop over the levels; both vectors have `LEVEL_COUNT` entries by their type.
unfoldable pub cmp_peaks : MemVec → MemVec → Ordering
cmp_peaks (a ∷ v) (b ∷ w) =
    let rest = cmp_peaks v w in
    elim (compare a b) [
      | Ordering.lt ↦ Ordering.lt
      | Ordering.eq ↦ rest
      | Ordering.gt ↦ Ordering.gt
    ]
cmp_peaks _ _ = Ordering.eq

-- `Ord for Cost`.
unfoldable pub cmp : Cost → Cost → Ordering
cmp c d = elim (compare c.main d.main) [
  | Ordering.lt ↦ Ordering.lt
  | Ordering.eq ↦ elim (cmp_peaks c.peaks d.peaks) [
    | Ordering.lt ↦ Ordering.lt
    | Ordering.eq ↦ compare c.depth d.depth
    | Ordering.gt ↦ Ordering.gt
  ]
  | Ordering.gt ↦ Ordering.gt
]
