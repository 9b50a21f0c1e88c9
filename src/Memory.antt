-- ===== src/Memory.antt =====
-- morello/src/memorylimits.rs, with `snap_memvec_up` of morello/src/utils.rs: memory vectors with
-- one binary-scaled entry for each level, and the limits made of them.
--
-- A `MemVec` is the list of its u8 entries. `IsMemVec` is what the Rust type and the constructors
-- ensure: `LEVEL_COUNT` entries, each the length of a 64-bit word.
pub mod Entries
pub mod Subtract
pub mod Transition
pub mod Order
pub mod Levels
pub mod Keys
mod Tests
use Prim.Native.Nat.{compare, Ordering}
use morello.Base.{
  ℕ, zero, suc, ◌+◌, ◌-◌, ◌≤◌, Bool, true, false, ◌&&◌, not, Option, none, some, List, [], ◌∷◌, map,
  ◌≡◌, All, Outcome, done, panic, ◌>>=◌, ltb, leb, ◌==◌, if◌then◌else◌, length, get_elem?, set,
  all_of, replicate,
}
use morello.Utils.Bits.{bit_length, bit_length_inverse, prev_power_of_two, next_power_of_two}

abbrev pub level_count : ℕ
level_count = 4

abbrev pub MemVec : Type 0
MemVec = List ℕ

pub data MemoryLimits : Type 0 where
  standard : MemVec → MemoryLimits

pub data MemoryAllocation : Type 0 where
  simple : List ℕ → MemoryAllocation
  inner pipeline : List (List ℕ) → MemoryAllocation

abbrev pub IsMemVec : MemVec → Type 0
IsMemVec v = (length v ≡ level_count) × All (λ b. b ≤ 64) v

abbrev pub no_allocation : MemoryAllocation
no_allocation = simple (replicate level_count 0)

unfoldable pub new : List ℕ → MemVec
new contents = map bit_length contents

abbrev pub zero_vec : MemVec
zero_vec = replicate level_count 0

unfoldable pub get_unscaled : MemVec → ℕ → Outcome ℕ
get_unscaled v i = elim (get_elem? v i) [ none ↦ panic | some b ↦ done (bit_length_inverse b) ]

unfoldable pub set_unscaled : MemVec → ℕ → ℕ → Outcome MemVec
set_unscaled v i value = if ltb i (length v) then done (set v i (bit_length value)) else panic

-- The loop of `discretize` at index `i`, with `n` rounds left.
unfoldable pub discretize_loop : ℕ → ℕ → MemVec → Outcome MemVec
discretize_loop zero i v = done v
discretize_loop (suc n) i v = do
  x ← get_unscaled v i
  w ← set_unscaled v i (prev_power_of_two x)
  discretize_loop n (suc i) w

unfoldable pub discretize : MemoryLimits → Outcome MemoryLimits
discretize (standard v) = do w ← discretize_loop (length v) 0 v; done (standard w)

-- `None` as soon as an entry is short; entries past the shorter of the two stay.
unfoldable pub checked_sub_snap_down : MemVec → List ℕ → Option MemVec
checked_sub_snap_down [] rhs = some []
checked_sub_snap_down (b ∷ v) [] = some (b ∷ v)
checked_sub_snap_down (b ∷ v) (r ∷ rhs) =
    let cur = bit_length_inverse b in
    let rest = checked_sub_snap_down v rhs in
    if ltb cur r
    then none
    else elim rest [ none ↦ none | some w ↦ some (bit_length (prev_power_of_two (cur - r)) ∷ w) ]

unfoldable pub map_unscaled : (ℕ → ℕ) → MemVec → MemVec
map_unscaled f v = map (λ b. bit_length (f (bit_length_inverse b))) v

-- `SNAP_CAP_TO_POWER_OF_TWO` is true, so `always` is never read.
unfoldable pub snap_memvec_up : MemVec → Bool → MemVec
unfolding map_unscaled
snap_memvec_up available always =
    if not true && not always
    then available
    else map_unscaled (λ v. if v == 0 then 0 else next_power_of_two v) available

-- `for child_allocation in per_child_diffs`, over the list of an `Inner` allocation.
unfoldable pub transition_inner : MemVec → List (List ℕ) → Outcome (Option (List MemoryLimits))
transition_inner v [] = done (some [])
transition_inner v (d ∷ ds) =
    let rest = transition_inner v ds in
    elim (checked_sub_snap_down v d) [
      | none ↦ done none
      | some w ↦ do
        l ← discretize (standard w)
        r ← rest
        done (elim r [ none ↦ none | some ls ↦ some (l ∷ ls) ])
    ]

-- The same loop over `iter::repeat(v)`, which never ends; `none` means that it still runs after
-- the given number of rounds. `result` holds the limits pushed so far, the last one first.
unfoldable pub transition_repeat :
    ℕ → MemVec → List ℕ → List MemoryLimits → Option (Outcome (Option (List MemoryLimits)))
transition_repeat zero v d result = none
transition_repeat (suc rounds) v d result =
    let rest = λ (l : MemoryLimits). transition_repeat rounds v d (l ∷ result) in
    elim (checked_sub_snap_down v d) [
      | none ↦ some (done none)
      | some w ↦ elim (discretize (standard w)) [ panic ↦ some panic | done l ↦ rest l ]
    ]

-- The `todo!()` of a pipeline panics.
unfoldable pub transition :
    ℕ → MemoryLimits → MemoryAllocation → Option (Outcome (Option (List MemoryLimits)))
transition rounds (standard v) (simple d) = transition_repeat rounds v d []
transition rounds (standard v) (inner ds) = some (transition_inner v ds)
transition rounds (standard v) (pipeline ds) = some panic

-- `PartialOrd for MemVec`: `partial_cmp` and the overridden `le` and `ge`.
unfoldable pub same_cmp : Ordering → MemVec → MemVec → Bool
same_cmp o (a ∷ v) (b ∷ w) = elim (compare a b) [
  | Ordering.lt ↦ elim o [ Ordering.lt ↦ same_cmp o v w | _ ↦ false ]
  | Ordering.eq ↦ elim o [ Ordering.eq ↦ same_cmp o v w | _ ↦ false ]
  | Ordering.gt ↦ elim o [ Ordering.gt ↦ same_cmp o v w | _ ↦ false ]
]
same_cmp o _ _ = true

unfoldable pub partial_cmp : MemVec → MemVec → Option Ordering
partial_cmp (a ∷ v) (b ∷ w) =
    let first = compare a b in if same_cmp first v w then some first else none
partial_cmp _ _ = none

unfoldable pub le : MemVec → MemVec → Bool
le (a ∷ v) (b ∷ w) = leb a b && le v w
le _ _ = true

unfoldable pub ge : MemVec → MemVec → Bool
ge (a ∷ v) (b ∷ w) = leb b a && ge v w
ge _ _ = true

-- The levels of a target, from the fastest to the slowest, under their partial order.
module _ {Level : Type 0} (lt : Level → Level → Bool) where
  unfoldable pub zero_loop : List Level → ℕ → List Level → MemVec → Outcome MemVec
  zero_loop [] idx bounds v = done v
  zero_loop (cur ∷ levels) idx bounds v = do
    w ← if all_of (λ bound. lt bound cur) bounds then set_unscaled v idx 0 else done v
    zero_loop levels (suc idx) bounds w

  unfoldable pub zero_levels_slower_than_all :
      List Level → MemoryLimits → List Level → Outcome MemoryLimits
  zero_levels_slower_than_all levels (standard v) bounds = do
    w ← zero_loop levels 0 bounds v
    done (standard w)

  unfoldable pub nonzero_loop : List Level → ℕ → List Level → MemVec → Outcome Bool
  nonzero_loop [] idx bounds v = done false
  nonzero_loop (cur ∷ levels) idx bounds v =
      let rest = nonzero_loop levels (suc idx) bounds v in
      do
        x ← get_unscaled v idx
        if not (x == 0) && all_of (λ bound. lt bound cur) bounds then done true else rest

  unfoldable pub any_nonzero_levels_slower_than :
      List Level → MemoryLimits → List Level → Outcome Bool
  any_nonzero_levels_slower_than levels (standard v) bounds = nonzero_loop levels 0 bounds v

-- `MemoryLimitsBimap`. The inverse reads `LEVEL_COUNT` entries and converts each to a u8.
unfoldable pub bimap_apply : MemoryLimits → List ℕ
bimap_apply (standard v) = v

unfoldable pub bimap_read : ℕ → ℕ → List ℕ → Outcome MemVec
bimap_read zero idx i = done []
bimap_read (suc n) idx i = do
  b ← elim (get_elem? i idx) [ none ↦ panic | some x ↦ if ltb x 256 then done x else panic ]
  v ← bimap_read n (suc idx) i
  done (b ∷ v)

unfoldable pub bimap_apply_inverse : List ℕ → Outcome MemoryLimits
bimap_apply_inverse i = do v ← bimap_read level_count 0 i; done (standard v)
