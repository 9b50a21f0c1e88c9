-- ===== src/Lib.antt =====
-- Morello: the synthesis of tensor programs, modelled and verified.
--
-- Morello computes, for a Spec (what a tensor program has to do within memory limits), the cheapest
-- implementation. The search (morello/src/search.rs) applies every action to the Spec; an action
-- gives a tree of nodes with Specs at its leaves (morello/src/imp/), whose costs the search asks
-- for in batches. Costs (morello/src/cost.rs) are built from the main costs and the memory peaks
-- of the children, and a reducer keeps the best. Memory limits (morello/src/memorylimits.rs) say
-- what a child may use; their entries are the lengths of powers of two (morello/src/utils.rs).
-- Layouts (morello/src/layout.rs) and tilings (morello/src/tiling.rs) describe tensors and their
-- parts, tensor specs (morello/src/tensorspec.rs) tensors in a memory level, and index expressions
-- (morello/src/expr.rs) where their elements lie. Results are stored in a database
-- (morello/src/db.rs), a grid cut into blocks, whose coordinates the maps of morello/src/grid/
-- compute.
--
-- The files:
-- - Base: the libraries' names, vectors as lists (`get_elem?`, `set`, `at`), Boolean tests, the
--   outcome of an operation that may panic (`done`, `panic`), machine words, and the contracts of
--   the division functions of the divrem crate.
-- - Utils/Bits: the powers of two of utils.rs. `bit_length`, `bit_length_inverse`,
--   `prev_power_of_two`, `next_binary_power` have the source's names.
-- - Memory: memorylimits.rs. A `MemVec` is the list of its entries; each method is the function of
--   its name, `transition` with the rounds that its loop may take.
-- - NdArray: ndarray.rs, over a record of the operations of the crate `rle_vec`, and
--   `iter_multidim_range` of utils.rs in Utils/Ranges.
-- - Tiling: tiling.rs, with `div_ceil` of divrem as a parameter.
-- - Database: the block arithmetic of db.rs, and in Database/Blocks what `put` and `get` do to the
--   blocks of one table, with `div_rem` and `div_ceil` of divrem as parameters.
-- - Layout: layout.rs; Layout/Update holds the updates for tiles, dropped and swapped dimensions.
--   The `find_position` of itertools is a parameter. Layout/Indexing has `buffer_indexing_expr`.
-- - Expr: expr.rs. `NonAffine`, `NonAffineExpr` (the source's `AffineForm<NonAffine<T>>`) and its
--   `Terms` are one family of types; the operators are `add`, `mul`, `div`, `rem`, and `bounds`,
--   `as_constant`, `map_vars` and `subs` have the source's names. Expr/Values gives expressions
--   their value at given atoms.
-- - Target: the trait `MemoryLevel` of target/mod.rs as a record of operations, and the levels of
--   target/cpu.rs, which fill it.
-- - TensorSpec: tensorspec.rs, over any such levels, with Squeeze for `squeeze_dims`, Alignment for
--   alignment.rs and CacheLines for `estimate_cache_lines` of layout.rs.
-- - Spec: spec.rs. The parent and Spec/Keys have the primitive Specs and their database keys,
--   Spec/Logical `LogicalSpec` and `Spec`, Spec/Replace `replace_io`,
--   Spec/Actions the sizes that splits and vectors try, and Spec/Canonical the
--   canonical forms.
-- - Views: the views of views.rs with their Specs. Scheduling: `Action::apply` of scheduling.rs;
--   Scheduling/Tiles has the cases that tile, Scheduling/Moves the moves, Scheduling/Apply the
--   others, Scheduling/Actions the actions that spec.rs proposes. An `Attempt` is the result of
--   `apply`: applied, refused with an error, or a panic.
-- - Cost and Imp: cost.rs and imp/. `Own` is the variants of `ImplNode` without the children,
--   `compute_main_cost`, `peak_memory_from_child_peaks`, `from_impl`, `compute_impl_cost` and the
--   traversals have the source's names.
-- - Search: `ImplReducer` and `SpecTask` of search.rs with `start`, `next_request_batch` and
--   `resolve_request`. The results of the actions are an argument of `start`.
-- - Grid: `SurMap`, `BiMap` and composition of grid/. Common: `Dtype` of common.rs.
--
-- Conventions. A Rust `Result` is a data type of the model; a panic, a failed `unwrap` and an index
-- out of range are the outcome `panic`. Assertions and debug assertions panic, as in a debug build,
-- where they are modelled; some are stated as preconditions, which the file says. Arithmetic wraps
-- at the width of the source's type, as in a release build, wherever its operands can reach that
-- width; subtractions that the source guards are subtractions of natural numbers. A usize has 64
-- bits. Two loops have fuel. That of `transition` has its `rounds`: the loop over an `Inner`
-- allocation is structural and needs none, and the loop over a `Simple` one has no end. That of
-- `iter_multidim_range` has the number of points of the box, and is `panic` without fuel left.
--
-- Not modelled: the search over several tasks (`BlockSearch`), the actions and layouts that a
-- target proposes, kernels, what views and nodes do for code generation, and the maps from a Spec's
-- operands to the database; the database's files, caches and threads, code generation, printing,
-- and the programs around the library, which are input and output.
mod Base
pub mod Utils
pub mod Memory
pub mod Target
pub mod Expr
pub mod Spec
pub mod TensorSpec
pub mod Views
pub mod Scheduling
pub mod Tiling
pub mod NdArray
pub mod Database
pub mod Layout
pub mod Cost
pub mod Imp
pub mod Search
pub mod Grid
pub mod Common
