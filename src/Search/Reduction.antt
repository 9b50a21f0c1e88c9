-- ===== src/Search/Reduction.antt =====
-- morello/src/search.rs: `ImplReducer`, which keeps the best entries. A `BTreeSet` is its sorted
-- list; the debug assertions on it are left out.
use Prim.Native.Nat.{compare, Ordering}
use morello.Base.{
  ℕ, Bool, true, false, not, ◌&&◌, Option, none, some, List, [], ◌∷◌, map, length, all_of, ltb, leb,
  ◌==◌, if◌then◌else◌, Outcome, done, ◌>>◌, assert,
}
use morello.Memory.{MemVec}
use morello.Cost.{Cost, cmp}

-- A cost and the index of the action that reaches it, under the order of tuples.
abbrev pub Entry : Type 0
Entry = Cost × ℕ

unfoldable pub entry_cmp : Entry → Entry → Ordering
entry_cmp (c, a) (d, b) = elim (cmp c d) [
  | Ordering.lt ↦ Ordering.lt
  | Ordering.eq ↦ compare a b
  | Ordering.gt ↦ Ordering.gt
]

pub data ImplReducerResults : Type 0 where
  one : Option Entry → ImplReducerResults
  many : List Entry → ImplReducerResults

pub record ImplReducer : Type 0 where
  pub results : ImplReducerResults
  pub top_k : ℕ
  pub preferences : List ℕ

unfoldable pub all_unique : List ℕ → Bool
all_unique [] = true
all_unique (x ∷ xs) = all_of (λ y. not (x == y)) xs && all_unique xs

unfoldable pub new_reducer : ℕ → List ℕ → Outcome ImplReducer
new_reducer top_k preferences = do
  assert (leb (length preferences) top_k)
  assert (all_unique preferences)
  done (record {
    results = if top_k == 1 then one none else many [];
    top_k = top_k;
    preferences = preferences;
  })

-- `BTreeSet::insert`, `remove` and `pop_last` on the sorted list.
unfoldable pub set_insert : Entry → List Entry → List Entry
set_insert new [] = new ∷ []
set_insert new (a ∷ actions) =
    let rest = set_insert new actions in
    elim (entry_cmp new a) [
      | Ordering.lt ↦ new ∷ a ∷ actions
      | Ordering.eq ↦ a ∷ actions
      | Ordering.gt ↦ a ∷ rest
    ]

unfoldable pub set_remove : Entry → List Entry → List Entry
set_remove old [] = []
set_remove old (a ∷ actions) =
    let rest = set_remove old actions in
    elim (entry_cmp old a) [
      | Ordering.lt ↦ a ∷ rest
      | Ordering.eq ↦ actions
      | Ordering.gt ↦ a ∷ rest
    ]

unfoldable pub pop_last : List Entry → List Entry
pop_last [] = []
pop_last (a ∷ []) = []
pop_last (a ∷ b ∷ actions) = a ∷ pop_last (b ∷ actions)

-- `==` on costs.
unfoldable pub same_peaks : MemVec → MemVec → Bool
same_peaks [] [] = true
same_peaks (a ∷ v) (b ∷ w) = a == b && same_peaks v w
same_peaks _ _ = false

unfoldable pub same_cost : Cost → Cost → Bool
same_cost c d = c.main == d.main && (same_peaks c.peaks d.peaks && c.depth == d.depth)

-- The first entry of the new entry's cost whose position prefers the new action.
unfoldable pub find_preferred : List ℕ → Entry → List Entry → Option Entry
find_preferred [] new actions = none
find_preferred (p ∷ preferences) new [] = none
find_preferred (p ∷ preferences) new (a ∷ actions) =
    let rest = find_preferred preferences new actions in
    if same_cost a.0 new.0 && p == new.1 then some a else rest

unfoldable pub insert_many : ℕ → List ℕ → List Entry → Entry → List Entry
insert_many top_k preferences actions new =
    if ltb (length actions) top_k
    then set_insert new actions
    else if not (all_of (λ a. not (same_cost a.0 new.0)) actions)
    then elim (find_preferred preferences new actions) [
      | none ↦ actions
      | some a ↦ set_insert new (set_remove a actions)
    ]
    else pop_last (set_insert new actions)

-- The better of the entry held and a new one.
unfoldable pub insert_one : Option Entry → Entry → Entry
insert_one none new = new
insert_one (some action) new = elim (entry_cmp action new) [
  | Ordering.lt ↦ action
  | Ordering.eq ↦ action
  | Ordering.gt ↦ new
]

unfoldable pub insert_results : ℕ → List ℕ → ImplReducerResults → Entry → ImplReducerResults
insert_results top_k preferences (one held) new = one (some (insert_one held new))
insert_results top_k preferences (many actions) new =
    many (insert_many top_k preferences actions new)

unfoldable pub insert : ImplReducer → ℕ → Cost → ImplReducer
insert r new_action_idx new_cost = record {
  results = insert_results r.top_k r.preferences r.results (new_cost, new_action_idx);
  top_k = r.top_k;
  preferences = r.preferences;
}

unfoldable pub finalize : ImplReducer → List (ℕ × Cost)
finalize r = elim r.results [
  | one held ↦ elim held [ none ↦ [] | some e ↦ (e.1, e.0) ∷ [] ]
  | many actions ↦ map (λ e. (e.1, e.0)) actions
]
