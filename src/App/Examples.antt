-- ===== src/App/Examples.antt =====
-- Tests of the application's state, and the theorems at concrete states.
use lmux.Prelude.{
  ℕ, ◌≤◌, false, some, List, [], ◌∷◌, ◌≡◌, refl, arith, length, lookup, contains_key, ◌+◌,
  retain_map, nat_eq, beq_self,
}
use lmux.Layout.{Layout, Dir, leaves, collect_leaves, remove_leaf, remove_leaf_in}
use lmux.App.Tabs.{remove_terminal_tab_metadata}
use lmux.Anchors.{Anchor, AnchorState, RegistryError, new_manual}
use lmux.Prelude.{ok, err, Bool, true, contains}
use lmux.App.Control.{Signal, Target, ControlError, hide_anchor, reattach_anchor}
use lmux.App.Control.Hiding.{reattach-hide_anchor, hide_anchor-paused}
use lmux.App.Screen.{Shows}
use lmux.App.Shown.{step-Shows}
use lmux.App.Runs.{step}
use lmux.App.{AppState, Pane, new}
use lmux.App.Anchors.{
  ensure_anchor_invariant, remove_anchor, replace_active, close_orphan_terminal_panes, close_all,
  orphans, drop_anchor, close_terminal_pane_without_focus, set_active_anchor,
}
use lmux.App.Panes.{u32_max, close_focused}
use lmux.App.Consistent.{IsConsistent}
use lmux.App.Invariant.{HasActive, ensure_anchor_invariant-lem}
use lmux.App.Orphans.{NoOrphan}
use lmux.App.Owned.{close_focused-owned}
use lmux.App.Runs.{Op, run, run-IsConsistent, new-IsConsistent}

abbrev shell : Pane
shell = record { is_satellite = false; has_exited = false; argv = []; cwd = [] }

abbrev blank : AppState ℕ
blank = new 1 shell 0

-- An anchor, a second one, a split and a tab of the second.
abbrev ops : List Op
ops =
    Op.ensure
    ∷ Op.make_anchor (some shell)
    ∷ Op.split Dir.horizontal (some shell)
    ∷ Op.make_tab (some shell)
    ∷ []

run-room : blank.next_id + length ops ≤ u32_max
unfolding new
run-room = omega arith

run-IsConsistent_example : IsConsistent (run 50 ops blank)
run-IsConsistent_example = run-IsConsistent 50 ops blank (new-IsConsistent 1 shell 0) run-room

-- Two anchors, the second with a split.
abbrev three : AppState ℕ
three = record blank {
  panes = (1, shell) ∷ (2, shell) ∷ (3, shell) ∷ [];
  layout =
      Layout.split Dir.vertical (Layout.leaf 1)
        (Layout.split Dir.horizontal (Layout.leaf 2) (Layout.leaf 3) 50) 50;
  focused = 2;
  next_id = 4;
  anchors = 1 ∷ 2 ∷ [];
  pane_workspace = (1, 1) ∷ (2, 2) ∷ (3, 2) ∷ [];
  active_anchor = some 2;
}

three-leaves : leaves three.layout ≡ 1 ∷ 2 ∷ 3 ∷ []
unfolding leaves collect_leaves
three-leaves = refl

three-IsConsistent : IsConsistent three
three-IsConsistent = (
  record {
    distinct = rw three-leaves (refl, (refl, (refl, tt)));
    placed = λ id. ground (arith, three-leaves);
    tagged = λ a x. ground arith;
    rooted = λ a x. ground (arith, nat_eq.beq_iff 1 a, nat_eq.beq_iff 2 a);
    above = λ id x. ground (arith, nat_eq.beq_iff 1 id, nat_eq.beq_iff 2 id, nat_eq.beq_iff 3 id);
  },
  λ a x. ground (arith, beq_self a),
)

remove_anchor-closes : (remove_anchor three 2).anchors ≡ 1 ∷ []
unfolding remove_anchor replace_active close_orphan_terminal_panes close_all orphans drop_anchor
    close_terminal_pane_without_focus remove_terminal_tab_metadata remove_leaf remove_leaf_in
    set_active_anchor ensure_anchor_invariant new retain_map
remove_anchor-closes = refl

ensure_anchor_invariant-lem_example :
    IsConsistent (ensure_anchor_invariant three) × HasActive (ensure_anchor_invariant three)
ensure_anchor_invariant-lem_example = ensure_anchor_invariant-lem three three-IsConsistent.0

close_focused-owned_example :
    (contains_key 2 (close_focused three).panes ≡ false)
    × HasActive (close_focused three)
    × NoOrphan (close_focused three)
close_focused-owned_example = close_focused-owned three three-IsConsistent refl refl

-- A registry with a live anchor for pane 1 and a paused one for pane 2.
abbrev entry : ℕ → AnchorState → Anchor
entry id state = record (new_manual id 0 [] []) { state = state }

abbrev rows : AppState ℕ
rows = record three {
  pane_anchor_ids = (1, 10) ∷ (2, 20) ∷ [];
  anchor_registry = (10, entry 10 AnchorState.live) ∷ (20, entry 20 AnchorState.paused) ∷ [];
}

abbrev obeys : Target → Signal → Bool
obeys target sig = true

reattach-hide_anchor_example :
    let hidden = (hide_anchor rows 1).0 in
    let back = (reattach_anchor hidden 1).0 in
    ((hide_anchor rows 1).1 ≡ ok tt)
    × (contains 1 hidden.hidden_anchors ≡ true)
    × (lookup 10 hidden.anchor_registry
        ≡ some (record (entry 10 AnchorState.live) { state = AnchorState.hidden }))
    × ((reattach_anchor hidden 1).1 ≡ ok tt)
    × (contains 1 back.hidden_anchors ≡ false)
    × (lookup 10 back.anchor_registry ≡ some (entry 10 AnchorState.live))
reattach-hide_anchor_example =
    reattach-hide_anchor rows 1 10 (entry 10 AnchorState.live) refl refl refl (unfold new in refl)

hide_anchor-paused_example :
    let after = (hide_anchor rows 2).0 in
    ((hide_anchor rows 2).1
      ≡ err (
          ControlError.registry
            (RegistryError.invalid_transition 20 AnchorState.paused AnchorState.hidden)))
    × (contains 2 after.hidden_anchors ≡ true)
    × (lookup 20 after.anchor_registry ≡ some (entry 20 AnchorState.paused))
    × ((hide_anchor after 2).1 ≡ ok tt)
hide_anchor-paused_example =
    hide_anchor-paused rows 2 20 (entry 20 AnchorState.paused) refl refl refl (unfold new in refl)

step-Shows_example :
    Shows (leaves three.layout) (leaves (step 50 (Op.split Dir.vertical (some shell)) three).layout)
step-Shows_example = step-Shows 50 (Op.split Dir.vertical (some shell)) three three-IsConsistent
