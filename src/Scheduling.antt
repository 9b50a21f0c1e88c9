-- ===== src/Scheduling.antt =====
-- morello/src/scheduling.rs: what an `Action` makes of a Spec. This file has the actions, the
-- errors and the nodes; the children have the cases of `apply`.
--
-- An attempt applies, is refused with an `ApplyError`, or panics. The nodes are those that `apply`
-- builds: their children are Specs applied to views.
mod Tests
pub mod Tiles
pub mod Moves
pub mod Actions
pub mod Sizes
pub mod TileSizes
pub mod Apply
pub mod Attempts
pub mod Bodies
pub mod Loops
pub mod Stages
pub mod Copies
use morello.Base.{
  ℕ, Bool, true, false, not, ◌&&◌, ◌||◌, Option, none, some, List, [], ◌∷◌, Outcome, ◌==◌,
}
use morello.Common.{Dtype}
use morello.Layout.{Layout, Result, ok, err}
use morello.Layout.Update.{same_shape}
use morello.Target.{Target}
use morello.TensorSpec.{TensorSpec, same_bool, same_layout}
use morello.Spec.Logical.{Spec}
use morello.Spec.Replace.{same_dtype}
use morello.Views.{Param, Tile, View}

pub data TileOut : Type 0 where
  single_loop : ℕ → ℕ → Bool → TileOut
  multi_loop : List ℕ → Bool → TileOut

unfoldable pub parallel_of : TileOut → Bool
parallel_of (single_loop dim size parallel) = parallel
parallel_of (multi_loop output_shape parallel) = parallel

-- The arguments of `Action::Move`.
pub record Destination (Level : Type 0) : Type 0 where
  pub source_idx : ℕ
  pub dtype : Dtype
  pub level : Level
  pub layout : Layout
  pub vector_size : Option ℕ

pub data Action (Level Kernel : Type 0) : Type 0 where
  tile_out : TileOut → Action Level Kernel
  split : ℕ → Action Level Kernel
  move : Destination Level → Action Level Kernel
  to_accum : Action Level Kernel
  peel : Layout → Level → Option ℕ → Action Level Kernel
  spatial_split : Action Level Kernel
  place : Kernel → Action Level Kernel

-- The `unimplemented!()` of a move panics.
unfoldable pub child_count : {Level Kernel : Type 0} → Action Level Kernel → Outcome ℕ
child_count (tile_out _) = Outcome.done 1
child_count (split _) = Outcome.done 1
child_count to_accum = Outcome.done 2
child_count spatial_split = Outcome.done 1
child_count (place _) = Outcome.done 0
child_count (move _) = Outcome.panic
child_count (peel _ _ _) = Outcome.done 2

pub data ActionNotApplicableReason : Type 0 where
  tile_shape_matches_original tile_shape_is_larger tile_shape_invalid layout_incompatible self_move
        other :
      ActionNotApplicableReason

pub data ApplyError : Type 0 where
  spec_not_canonical out_of_memory : ApplyError
  action_not_applicable : ActionNotApplicableReason → ApplyError

pub data Attempt {ℓ} (A : Type ℓ) : Type ℓ where
  applied : A → Attempt A
  refused : ApplyError → Attempt A
  panicked : Attempt A

infixl 5 ◌>>=◌ ◌>>◌
abbrev pub ◌>>=◌ {ℓ κ} : {A : Type ℓ} {B : Type κ} → Attempt A → (A → Attempt B) → Attempt B
applied a >>= f = f a
refused e >>= f = refused e
panicked >>= f = panicked

abbrev pub ◌>>◌ {ℓ} : {B : Type ℓ} → Attempt (Unit {0}) → Attempt B → Attempt B
m >> k = m >>= λ _. k

abbrev pub run {ℓ} : {A : Type ℓ} → Outcome A → Attempt A
run (Outcome.done a) = applied a
run Outcome.panic = panicked

abbrev pub demand : Bool → Attempt (Unit {0})
demand true = applied tt
demand false = panicked

abbrev pub refuse_if : Bool → ApplyError → Attempt (Unit {0})
refuse_if true e = refused e
refuse_if false e = applied tt

-- `unwrap`, and `map_err(tile_to_apply_err)?`.
abbrev pub unwrapped {ℓ} : {A : Type ℓ} → Outcome (Result A) → Attempt A
unwrapped (Outcome.done (ok a)) = applied a
unwrapped (Outcome.done (err _)) = panicked
unwrapped Outcome.panic = panicked

abbrev pub tile_or_refuse {ℓ} : {A : Type ℓ} → Outcome (Result A) → Attempt A
tile_or_refuse (Outcome.done (ok a)) = applied a
tile_or_refuse (Outcome.done (err _)) = refused (action_not_applicable layout_incompatible)
tile_or_refuse Outcome.panic = panicked

pub record LoopTile (Level : Type 0) : Type 0 where
  pub axes : List ℕ
  pub tile : Tile Level

pub record SpecApp (Level : Type 0) : Type 0 where
  pub spec : Spec Level
  pub args : List (View Level)

-- `TensorOrCacheView`.
pub data Introduced (Level : Type 0) : Type 0 where
  new_tensor : TensorSpec Level → Introduced Level
  new_cache_view : Param Level → TensorSpec Level → Introduced Level

unfoldable pub introduced_spec : {Level : Type 0} → Introduced Level → TensorSpec Level
introduced_spec (new_tensor t) = t
introduced_spec (new_cache_view source t) = t

pub record MoveLet (Level : Type 0) : Type 0 where
  pub parameter_idx : ℕ
  pub source_spec : TensorSpec Level
  pub introduced : Introduced Level
  pub has_prologue : Bool
  pub has_epilogue : Bool
  pub children : List (SpecApp Level)
  pub spec : Spec Level

pub data ImplNode (Level Kernel : Type 0) : Type 0 where
  loop : List (LoopTile Level) → SpecApp Level → Bool → Spec Level → ImplNode Level Kernel
  pipe : List (TensorSpec Level) → List (SpecApp Level) → Spec Level → ImplNode Level Kernel
  move_let : MoveLet Level → ImplNode Level Kernel
  block :
      List (SpecApp Level)
      → List (List ℕ)
      → List (TensorSpec Level)
      → Spec Level
      → ImplNode Level Kernel
  kernel_app : Kernel → List (Param Level) → Spec Level → ImplNode Level Kernel

abbrev pub same_vector : Option ℕ → Option ℕ → Bool
same_vector none none = true
same_vector (some a) (some b) = a == b
same_vector _ _ = false

-- The derived equality of `TensorSpec`.
unfoldable pub same_tensor_spec :
    {Level : Type 0} → Target Level → TensorSpec Level → TensorSpec Level → Bool
same_tensor_spec target a b =
    same_shape a.shape b.shape
    && same_dtype a.dtype b.dtype
    && a.aux.contig == b.aux.contig
    && same_bool a.aux.aligned b.aux.aligned
    && target.same_level a.aux.level b.aux.level
    && same_layout a.aux.layout b.aux.layout
    && same_vector a.aux.vector_size b.aux.vector_size
