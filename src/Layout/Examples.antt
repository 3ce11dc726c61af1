-- ===== src/Layout/Examples.antt =====
-- Tests of the layout tree, after those of crates/lmux/src/layout.rs, and the theorems at a tree.
use lmux.Prelude.{
  ℕ, true, false, some, List, [], ◌∷◌, nat_eq, ◌≡◌, refl, without, retain, is_none, is_empty,
}
use lmux.Layout.{
  Layout, leaf, split, horizontal, vertical, leaves, top, right, remove_leaf, reparent,
  prune_to_workspace, collect_leaves,
}
use lmux.Layout.Leaves.{splice}
use lmux.Layout.Remove.{leaves-remove_leaf}
use lmux.Layout.Reparent.{leaves-reparent, dropped}
use lmux.Layout.Workspace.{leaves-prune_to_workspace, shown, in_tab}

-- Three panes, with ratios in percent.
abbrev tree : Layout ℕ
tree = split horizontal (split vertical (leaf 1) (leaf 2) 50) (leaf 3) 50

abbrev two_panes : Layout ℕ
two_panes = split horizontal (leaf 1) (leaf 2) 50

leaves_in_order : leaves tree ≡ 1 ∷ 2 ∷ 3 ∷ []
unfolding leaves collect_leaves
leaves_in_order = refl

reparent_right : reparent 50 two_panes 1 2 right ≡ (split vertical (leaf 2) (leaf 1) 50, true)
unfolding reparent collect_leaves
reparent_right = refl

reparent_missing : reparent 50 two_panes 99 2 right ≡ (two_panes, false)
unfolding reparent collect_leaves
reparent_missing = refl

cannot_remove_last : remove_leaf {R = ℕ} (leaf 1) 1 ≡ (leaf 1, false)
unfolding remove_leaf
cannot_remove_last = refl

leaves-remove_leaf_example : leaves (remove_leaf tree 2).0 ≡ without 2 (leaves tree)
unfolding remove_leaf leaves collect_leaves
leaves-remove_leaf_example = leaves-remove_leaf tree 2 (refl, (refl, (refl, tt))) refl

leaves-reparent_example :
    leaves (reparent 50 tree 1 3 top).0 ≡ splice 3 (dropped top 1 3) (without 1 (leaves tree))
unfolding reparent leaves collect_leaves
leaves-reparent_example = leaves-reparent 50 tree 1 3 top (refl, (refl, (refl, tt))) refl

-- Panes 1 and 2 belong to the workspace of 1, and 2 is a tab of its own.
abbrev owners : List (ℕ × ℕ)
owners = (1, 1) ∷ (2, 1) ∷ (3, 3) ∷ []

leaves-prune_to_workspace_example :
    (shown (prune_to_workspace tree 1 2 owners (λ id. id))
      ≡ retain (in_tab 1 2 owners (λ id. id)) (leaves tree))
    × (is_none (prune_to_workspace tree 1 2 owners (λ id. id))
        ≡ is_empty (retain (in_tab 1 2 owners (λ id. id)) (leaves tree)))
leaves-prune_to_workspace_example = leaves-prune_to_workspace tree 1 2 owners (λ id. id)

pruned : prune_to_workspace tree 1 2 owners (λ id. id) ≡ some (leaf 2)
unfolding prune_to_workspace
pruned = refl
