-- ===== src/NdArray/Tests.antt =====
-- Runs of morello/src/ndarray.rs, over lists in place of run-length encoded vectors, and the theorem
-- of `position` at an array.
use morello.Base.{
  ℕ, zero, suc, ◌/◌, ◌%◌, ◌≡◌, refl, Bool, true, false, none, some, List, [], ◌∷◌, ◌++◌, ◌⊎◌, All,
  replicate, set, ◌==◌, done, if◌then◌else◌, arith, IsDivRem,
}
use morello.Layout.Update.{same_shape}
use morello.Utils.Ranges.{Range, iter_multidim_range, visit_loop, advance, any_empty}
use morello.NdArray.{
  Run, RleVec, IsRleVec, NdArray, strides_loop, calculate_strides, find_from, unravel, position,
  get, zip_ranges, whole_dims, extended_fill, fill_region_ext_inner, fill_visits, fill_tiles,
  fill_region_ext, fill_region, set_pt,
}
use morello.NdArray.Writes.{get-set_pt}
use morello.NdArray.Positions.{IsIn, IsArray, position-IsIn}

-- Every element is a run of its own.
abbrev single_runs : {T : Type 0} → ℕ → List T → List (Run T)
single_runs i [] = []
single_runs i (x ∷ xs) = record { start = i; len = 1; value = x } ∷ single_runs (suc i) xs

abbrev set_many : {T : Type 0} → ℕ → ℕ → T → List T → List T
set_many i n v [] = []
set_many zero zero v (x ∷ xs) = x ∷ xs
set_many zero (suc n) v (x ∷ xs) = v ∷ set_many zero n v xs
set_many (suc i) n v (x ∷ xs) = x ∷ set_many i n v xs

abbrev lists : RleVec
lists = record {
  Rle = λ T. List T;
  iter = λ xs. xs;
  new = [];
  push_n = λ xs n v. xs ++ replicate n v;
  from_slice = λ xs. xs;
  set = λ xs i v. set xs i v;
  set_hint = λ xs i v hint. (set xs i v, i);
  set_range = λ xs i n v. set_many i n v xs;
  runs = λ xs. single_runs 0 xs;
  run_index = λ xs i. i;
}

abbrev native_div_rem : ℕ → ℕ → ℕ × ℕ
native_div_rem a b = (a / b, a % b)

native-IsDivRem : IsDivRem native_div_rem
native-IsDivRem a b h = refl

abbrev table : NdArray lists ℕ
table = record { cells = 4 ∷ 0 ∷ 7 ∷ 1 ∷ 9 ∷ 2 ∷ []; shape = 2 ∷ 3 ∷ []; strides = 3 ∷ 1 ∷ [] }

abbrev is_nine : ℕ → Bool
is_nine n = n == 9

position_run : position lists native_div_rem table is_nine ≡ done (some (1 ∷ 1 ∷ []))
unfolding position find_from unravel
position_run = refl

abbrev inner_column : List Range
inner_column = record { start = 0; end = 2 } ∷ record { start = 1; end = 3 } ∷ []

fill_run :
    fill_region lists table inner_column 5
    ≡ done (record table { cells = 4 ∷ 5 ∷ 5 ∷ 1 ∷ 5 ∷ 5 ∷ [] })
unfolding fill_region fill_region_ext zip_ranges whole_dims fill_tiles fill_visits
    fill_region_ext_inner extended_fill iter_multidim_range visit_loop advance any_empty
fill_run = refl

table-IsArray : IsArray lists table
unfolding IsArray calculate_strides strides_loop
table-IsArray = (refl, refl)

position-IsIn_example :
    ((pt : List ℕ) × (x : ℕ) × (position lists native_div_rem table is_nine ≡ done (some pt))
      × IsIn pt (2 ∷ 3 ∷ [])
      × (get lists table pt ≡ done x)
      × (is_nine x ≡ true))
    ⊎ ((position lists native_div_rem table is_nine ≡ done none)
        × All (λ x. is_nine x ≡ false) (4 ∷ 0 ∷ 7 ∷ 1 ∷ 9 ∷ 2 ∷ []))
position-IsIn_example =
    position-IsIn lists native_div_rem native-IsDivRem table is_nine table-IsArray

lists-IsRleVec : IsRleVec lists
lists-IsRleVec = record { iter_set = λ v i x h. refl }

get-set_pt_example :
    (b : NdArray lists ℕ) × (set_pt lists table (1 ∷ 0 ∷ []) 8 ≡ done b)
    × IsArray lists b
    × (b.shape ≡ 2 ∷ 3 ∷ [])
    × (get lists b (1 ∷ 2 ∷ [])
        ≡ (if same_shape (1 ∷ 0 ∷ []) (1 ∷ 2 ∷ []) then done 8 else get lists table (1 ∷ 2 ∷ [])))
get-set_pt_example =
    get-set_pt lists lists-IsRleVec table (1 ∷ 0 ∷ []) (1 ∷ 2 ∷ []) 8 table-IsArray (omega arith)
      (omega arith)
