-- ===== src/Utils/Ranges.antt =====
-- morello/src/utils.rs, `iter_multidim_range`: the points of a box, the last dimension fastest, with
-- their offsets.
--
-- The calls of the callback are the list of its arguments. The loop keeps its point innermost
-- dimension first, as its inner loop reads it.
use mathlib.Core.List.{reverse}
use morello.Base.{
  ℕ, zero, suc, ◌+◌, ◌-◌, ◌*◌, Bool, true, false, not, ◌||◌, Option, none, some, List, [], ◌∷◌, map,
  length, ltb, ◌==◌, if◌then◌else◌, Outcome, done, panic, ◌>>=◌, ◌>>◌, assert,
}

-- A `Range<u32>`.
pub record Range : Type 0 where
  pub start : ℕ
  pub end : ℕ

-- `Range::len`, which is 0 for an empty range.
abbrev pub range_len : Range → ℕ
range_len r = r.end - r.start

-- A dimension of the loop: its range, its stride and the current coordinate.
pub record Axis : Type 0 where
  pub range : Range
  pub stride : ℕ
  pub current : ℕ

abbrev pub point_of : List Axis → List ℕ
point_of axes = map (λ a. a.current) axes

abbrev pub axes_of : List Range → List ℕ → List Axis
axes_of (r ∷ ranges) (s ∷ strides) =
    record { range = r; stride = s; current = r.start } ∷ axes_of ranges strides
axes_of _ _ = []

-- The sum of the coordinates times the strides.
abbrev pub index_of : List Axis → ℕ
index_of [] = 0
index_of (a ∷ axes) = a.current * a.stride + index_of axes

-- The inner loop; `none` is the return once the outermost dimension is at its end.
unfoldable pub advance : List Axis → ℕ → Option (List Axis × ℕ)
advance [] buffer_index = none
advance (a ∷ axes) buffer_index =
    let current = a.current + 1 in
    let moved = buffer_index + a.stride in
    let carry = advance axes (moved - a.stride * (current - a.range.start)) in
    if ltb current a.range.end
    then some (record a { current = current } ∷ axes, moved)
    else elim carry [
      | none ↦ none
      | some (rest, i) ↦ some (record a { current = a.range.start } ∷ rest, i)
    ]

-- The outer loop. It has no end of its own but the return of the inner loop: without fuel left it is
-- `panic`, never the calls so far, so that a result says that the loop has returned.
unfoldable pub visit_loop : ℕ → List Axis → ℕ → Outcome (List (ℕ × List ℕ))
visit_loop zero axes buffer_index = panic
visit_loop (suc fuel) axes buffer_index = elim (advance axes buffer_index) [
  | none ↦ done ((buffer_index, reverse (point_of axes)) ∷ [])
  | some (next, i) ↦
      visit_loop fuel next i >>= λ rest. done ((buffer_index, reverse (point_of axes)) ∷ rest)
]

abbrev pub no_range : List Range → Bool
no_range [] = true
no_range _ = false

unfoldable pub any_empty : List Range → Bool
any_empty [] = false
any_empty (r ∷ ranges) = not (ltb r.start r.end) || any_empty ranges

abbrev pub point_count : List Axis → ℕ
point_count [] = 1
point_count (a ∷ axes) = point_count axes * range_len a.range

unfoldable pub iter_multidim_range : List Range → List ℕ → Outcome (List (ℕ × List ℕ))
iter_multidim_range dim_ranges strides = do
  assert (length dim_ranges == length strides)
  let axes = reverse (axes_of dim_ranges strides)
  if no_range dim_ranges || any_empty dim_ranges
      then done []
      else visit_loop (point_count axes) axes (index_of axes)
