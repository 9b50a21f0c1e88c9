-- ===== src/Imp/PeakMemory.antt =====
-- morello/src/imp/mod.rs: `peak_memory_from_child_peaks`.
use morello.Base.{
  ℕ, ◌+◌, max, List, [], ◌∷◌, ◌==◌, length, replicate, u64, Outcome, done, ◌>>◌, assert,
}
use morello.Utils.Bits.{bit_length, bit_length_inverse, next_binary_power}
use morello.Memory.{MemVec, MemoryAllocation, simple, inner, pipeline, level_count, zero_vec}

-- One child's part in the peaks: on each level, the next power of two that covers what was seen
-- and the child's peak with `own` beside it.
unfoldable pub raise_peak : List ℕ → MemVec → MemVec → MemVec
raise_peak (o ∷ own) (c ∷ child_peak) (p ∷ peak) =
    bit_length (next_binary_power (max (bit_length_inverse p) (u64 (o + bit_length_inverse c))))
    ∷ raise_peak own child_peak peak
raise_peak _ _ peak = peak

unfoldable pub peak_simple : List ℕ → List MemVec → MemVec → MemVec
peak_simple own [] peak = peak
peak_simple own (c ∷ child_peaks) peak = peak_simple own child_peaks (raise_peak own c peak)

unfoldable pub peak_inner : List (List ℕ) → List MemVec → MemVec → MemVec
peak_inner (own ∷ child_adds) (c ∷ child_peaks) peak =
    peak_inner child_adds child_peaks (raise_peak own c peak)
peak_inner _ _ peak = peak

unfoldable pub add_levels : List ℕ → List ℕ → List ℕ
add_levels (a ∷ u) (b ∷ v) = u64 (a + b) ∷ add_levels u v
add_levels _ _ = []

-- `following` is read from the list that is left; past its end it is zero.
unfoldable pub peak_pipeline : List ℕ → List (List ℕ) → List MemVec → MemVec → MemVec
peak_pipeline preceding rest [] peak = peak
peak_pipeline preceding [] (c ∷ child_peaks) peak =
    let z = replicate level_count 0 in
    peak_pipeline z [] child_peaks (raise_peak (add_levels preceding z) c peak)
peak_pipeline preceding (following ∷ rest) (c ∷ child_peaks) peak =
    peak_pipeline following rest child_peaks (raise_peak (add_levels preceding following) c peak)

unfoldable pub peak_memory_from_child_peaks : MemoryAllocation → List MemVec → Outcome MemVec
peak_memory_from_child_peaks (simple own) child_peaks = done (peak_simple own child_peaks zero_vec)
peak_memory_from_child_peaks (inner child_adds) child_peaks = do
  assert (length child_peaks == length child_adds)
  done (peak_inner child_adds child_peaks zero_vec)
peak_memory_from_child_peaks (pipeline consumption) child_peaks = do
  assert (length child_peaks + 1 == length consumption)
  done (peak_pipeline (replicate level_count 0) consumption child_peaks zero_vec)
