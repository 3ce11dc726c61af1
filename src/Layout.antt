-- ===== src/Layout.antt =====
-- The layout tree of splits: crates/lmux/src/layout.rs, and the functions of
-- crates/lmux/src/state.rs that walk it. The ratio (an `f64`) is only stored and copied, so its
-- type is a parameter, with the literal `0.5` of `reparent` as `half`.
-- A `&mut self` method returns the new tree with its result.
pub mod Leaves
pub mod Remove
pub mod Reparent
pub mod Workspace
pub mod Examples
use lmux.Prelude.{
  ℕ, Bool, true, false, not, ◌&&◌, ◌||◌, Option, none, some, List, [], ◌∷◌, ◌++◌, ◌==◌, nat_eq,
  if◌then◌else◌, contains, option_eq, lookup,
}

pub data Dir : Type 0 where
  horizontal vertical : Dir

pub data Edge : Type 0 where
  top right bottom left : Edge

pub data Layout (R : Type 0) : Type 0 where
  leaf : ℕ → Layout R
  split : Dir → Layout R → Layout R → R → Layout R

module _ {R : Type 0} where
  -- `out` is the vector that the method pushes to.
  unfoldable pub collect_leaves : Layout R → List ℕ → List ℕ
  collect_leaves (leaf id) out = out ++ id ∷ []
  collect_leaves (split dir a b ratio) out = collect_leaves b (collect_leaves a out)

  unfoldable pub leaves : Layout R → List ℕ
  leaves l = collect_leaves l []

  abbrev pub is_leaf : Layout R → ℕ → Bool
  is_leaf (leaf id) target = id == target
  is_leaf (split dir a b ratio) target = false

  -- The `Option<F>` is emptied by `take` where the closure is called.
  abbrev call_at : Option (ℕ → Layout R) → ℕ → Layout R × Option (ℕ → Layout R) × Bool
  call_at none target = (leaf target, none, false)
  call_at (some func) target = (func target, none, true)

  unfoldable pub replace_leaf_with :
      Layout R → ℕ → Option (ℕ → Layout R) → Layout R × Option (ℕ → Layout R) × Bool
  replace_leaf_with (leaf id) target f =
      if id == target then call_at f target else (leaf id, f, false)
  replace_leaf_with (split dir a b ratio) target f =
      let (a', f', found) = replace_leaf_with a target f in
      let (b', f'', found') = replace_leaf_with b target f' in
      if found then (split dir a' b ratio, f', true) else (split dir a' b' ratio, f'', found')

  unfoldable pub replace_leaf : Layout R → ℕ → (ℕ → Layout R) → Layout R × Bool
  unfolding replace_leaf_with
  replace_leaf l target f = let (l', g, found) = replace_leaf_with l target (some f) in (l', found)

  unfoldable pub remove_leaf_in : Layout R → ℕ → Layout R × Bool
  remove_leaf_in (leaf id) target = (leaf id, false)
  remove_leaf_in (split dir a b ratio) target =
      let (a', found) = remove_leaf_in a target in
      let (b', found') = remove_leaf_in b target in
      if is_leaf a target
      then (b, true)
      else if is_leaf b target
      then (a, true)
      else if found
      then (split dir a' b ratio, true)
      else (split dir a' b' ratio, found')

  unfoldable pub remove_leaf : Layout R → ℕ → Layout R × Bool
  unfolding remove_leaf_in
  remove_leaf l target = if is_leaf l target then (l, false) else remove_leaf_in l target

  -- The split that the closure of `reparent` builds at the target.
  unfoldable pub placed_at : R → Edge → ℕ → ℕ → Layout R
  placed_at half top source target = split horizontal (leaf source) (leaf target) half
  placed_at half bottom source target = split horizontal (leaf target) (leaf source) half
  placed_at half left source target = split vertical (leaf source) (leaf target) half
  placed_at half right source target = split vertical (leaf target) (leaf source) half

  unfoldable pub reparent : R → Layout R → ℕ → ℕ → Edge → Layout R × Bool
  unfolding leaves remove_leaf replace_leaf placed_at
  reparent half l source target edge =
      if source == target
      then (l, false)
      else if not (contains source (leaves l)) || not (contains target (leaves l))
      then (l, false)
      else let (removed, gone) = remove_leaf l source in
        if not gone
        then (removed, false)
        else let (placed, found) =
            replace_leaf removed target (λ target_id. placed_at half edge source target_id) in
          if not found then (l, false) else (placed, true)

  abbrev join : Dir → R → Option (Layout R) → Option (Layout R) → Option (Layout R)
  join dir ratio none none = none
  join dir ratio (some only) none = some only
  join dir ratio none (some only) = some only
  join dir ratio (some a) (some b) = some (split dir a b ratio)

  -- `prune_to_workspace` of state.rs: the part of the tree that the active tab shows.
  unfoldable pub prune_to_workspace : Layout R → ℕ → ℕ → List (ℕ × ℕ) → (ℕ → ℕ) → Option (Layout R)
  prune_to_workspace (leaf id) active active_tab workspace tab_root =
      if lookup id workspace == some active && tab_root id == active_tab
      then some (leaf id)
      else none
  prune_to_workspace (split dir a b ratio) active active_tab workspace tab_root =
      join dir ratio (prune_to_workspace a active active_tab workspace tab_root)
        (prune_to_workspace b active active_tab workspace tab_root)

  -- The loop of `AppState::snapshot` that takes the satellites out of the saved tree; `build_restored`
  -- runs the same loop over the panes that did not come back.
  unfoldable pub strip_satellites : Layout R → List ℕ → Layout R
  unfolding remove_leaf
  strip_satellites l [] = l
  strip_satellites l (id ∷ ids) = strip_satellites (remove_leaf l id).0 ids
