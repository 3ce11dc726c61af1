-- ===== src/Layout/Workspace.antt =====
-- The part of the tree that the active tab of a workspace shows: `prune_to_workspace` of
-- crates/lmux/src/state.rs.
use mathlib.Core.List.{append-nil}
use lmux.Prelude.{
  ℕ, Bool, false, ◌&&◌, List, [], ◌++◌, ◌==◌, nat_eq, ◌≡◌, refl, arith, ap, sym, ◌∙◌, retain,
  lookup, Option, none, some, option_eq, retain-append, is_none, is_empty,
}
use lmux.Layout.{Dir, Layout, leaf, split, leaves, prune_to_workspace, join}
use lmux.Layout.Leaves.{leaves-leaf, leaves-split}

-- The panes of a tree that may be absent.
abbrev pub shown : {R : Type 0} → Option (Layout R) → List ℕ
shown none = []
shown (some l) = leaves l

-- The test at a leaf: the pane belongs to the active workspace and to its active tab.
abbrev pub in_tab : ℕ → ℕ → List (ℕ × ℕ) → (ℕ → ℕ) → ℕ → Bool
in_tab active active_tab workspace tab_root id =
    lookup id workspace == some active && tab_root id == active_tab

module _ {R : Type 0} where
  leaves-ne-nil : (l : Layout R) → is_empty (leaves l) ≡ false
  leaves-ne-nil (leaf id) = ground (arith, leaves-leaf R id)
  leaves-ne-nil (split dir a b ratio) = ground (arith, leaves-split dir a b ratio, leaves-ne-nil a)

  shown-join :
      (dir : Dir) (ratio : R) (x y : Option (Layout R))
      → shown (join dir ratio x y) ≡ shown x ++ shown y
  shown-join dir ratio none none = refl
  shown-join dir ratio (some a) none = sym (append-nil (leaves a))
  shown-join dir ratio none (some b) = refl
  shown-join dir ratio (some a) (some b) = leaves-split dir a b ratio

  shown_none : (x : Option (Layout R)) → is_none x ≡ is_empty (shown x)
  shown_none none = refl
  shown_none (some l) = ground (arith, leaves-ne-nil l)

  shown-prune :
      (l : Layout R) (active active_tab : ℕ) (workspace : List (ℕ × ℕ)) (tab_root : ℕ → ℕ)
      → shown (prune_to_workspace l active active_tab workspace tab_root)
        ≡ retain (in_tab active active_tab workspace tab_root) (leaves l)
  unfolding prune_to_workspace
  shown-prune (leaf id) active active_tab workspace tab_root = ground (arith, leaves-leaf R id)
  shown-prune (split dir a b ratio) active active_tab workspace tab_root =
      let p = in_tab active active_tab workspace tab_root in
      cc (
        shown-join dir ratio (prune_to_workspace a active active_tab workspace tab_root)
            (prune_to_workspace b active active_tab workspace tab_root),
        shown-prune a active active_tab workspace tab_root,
        shown-prune b active active_tab workspace tab_root,
        leaves-split dir a b ratio,
        retain-append p (leaves a) (leaves b),
      )

  -- The pruned tree shows exactly the panes that belong to the active workspace and its active tab,
  -- in their order, and is absent exactly if there is no such pane.
  pub leaves-prune_to_workspace :
      (l : Layout R) (active active_tab : ℕ) (workspace : List (ℕ × ℕ)) (tab_root : ℕ → ℕ)
      → (shown (prune_to_workspace l active active_tab workspace tab_root)
          ≡ retain (in_tab active active_tab workspace tab_root) (leaves l))
        × (is_none (prune_to_workspace l active active_tab workspace tab_root)
            ≡ is_empty (retain (in_tab active active_tab workspace tab_root) (leaves l)))
  leaves-prune_to_workspace l active active_tab workspace tab_root =
      let h = shown-prune l active active_tab workspace tab_root in
      (h, shown_none (prune_to_workspace l active active_tab workspace tab_root) ∙ ap is_empty h)
