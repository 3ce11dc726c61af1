-- ===== src/App/Anchors.antt =====
-- Tagging panes as anchors and closing panes that no anchor owns: crates/lmux/src/state.rs.
use lmux.Prelude.{
  ℕ, zero, suc, ◌+◌, ◌%◌, Bool, true, false, not, ◌||◌, Option, none, some, List, [], ◌∷◌, ◌==◌,
  nat_eq, option_eq, if◌then◌else◌, lookup, insert, erase, contains, contains_key, retain_map,
  set_insert, without, length, Text,
}
use lmux.Layout.{leaves, remove_leaf}
use lmux.Anchors.{Anchor, new_manual, insert_anchor}
use lmux.Anchors
use lmux.Anchors.Sidebar.{next_anchor_sort_key_for}
use lmux.App.{AppState, Pane, first_terminal}
use lmux.App.Tabs.{ensure_terminal_tab_stack, remove_terminal_tab_metadata}

abbrev pub values_of : List (ℕ × ℕ) → List ℕ
values_of [] = []
values_of ((k, v) ∷ m) = v ∷ values_of m

-- The first element of a set.
abbrev pub first : List ℕ → Option ℕ
first [] = none
first (a ∷ rest) = some a

abbrev pub is_other_anchor : List ℕ → Option ℕ → Bool
is_other_anchor anchors none = false
is_other_anchor anchors (some id) = not (contains id anchors)

abbrev pub position : ℕ → List ℕ → Option ℕ
position a [] = none
position a (x ∷ xs) =
    let rest = position a xs in
    if x == a then some 0 else elim rest [ none ↦ none | some i ↦ some (suc i) ]

abbrev pub nth_or : ℕ → List ℕ → ℕ → ℕ
nth_or d [] i = d
nth_or d (x ∷ xs) zero = x
nth_or d (x ∷ xs) (suc i) = nth_or d xs i

module _ {R : Type 0} where
  abbrev pub focus_of : AppState R → Option ℕ → ℕ
  focus_of s none = s.focused
  focus_of s (some id) = id

  unfoldable pub set_active_anchor : AppState R → Option ℕ → AppState R
  set_active_anchor s target =
      if is_other_anchor s.anchors target
      then s
      else if s.active_anchor == target
      then s
      else record s { active_anchor = target; focused = focus_of s target }

  -- A satellite of another anchor.
  abbrev pub is_owned_by_other : AppState R → ℕ → Bool
  is_owned_by_other s target = elim (lookup target s.pane_workspace) [
    | none ↦ false
    | some owner ↦ not (owner == target)
  ]

  abbrev pub spawn_metadata : AppState R → ℕ → List Text × Text
  spawn_metadata s pane = elim (lookup pane s.panes) [ none ↦ ([], []) | some p ↦ (p.argv, p.cwd) ]

  -- The entry that `tag_anchor_core` puts into the registry.
  unfoldable pub tagged_anchor : AppState R → ℕ → Anchor
  tagged_anchor s target =
      let (argv, cwd) = spawn_metadata s target in
      record (new_manual (s.fresh + 1) s.fresh argv cwd) {
        sort_key =
            some (next_anchor_sort_key_for (values_of s.pane_anchor_ids) s.anchor_registry none);
      }

  unfoldable pub tag_anchor_core : AppState R → ℕ → AppState R × Bool
  tag_anchor_core s target =
      if not (contains_key target s.panes)
      then (s, false)
      else if is_owned_by_other s target
      then (s, false)
      else if contains target s.anchors
      then (s, false)
      else (
        record s {
          anchors = set_insert target s.anchors;
          anchor_registry = (insert_anchor s.anchor_registry (tagged_anchor s target)).0;
          pane_anchor_ids = insert target (s.fresh + 1) s.pane_anchor_ids;
          pane_workspace = insert target target s.pane_workspace;
          terminal_tabs_by_anchor = insert target (target ∷ []) s.terminal_tabs_by_anchor;
          active_terminal_tab_by_anchor = insert target target s.active_terminal_tab_by_anchor;
          pane_terminal_tab_roots = insert target target s.pane_terminal_tab_roots;
          fresh = s.fresh + 2;
        },
        true,
      )

  unfoldable pub close_terminal_pane_without_focus : AppState R → ℕ → AppState R × Bool
  close_terminal_pane_without_focus s pane =
      let (layout, found) = remove_leaf s.layout pane in
      if not found then (record s { layout = layout }, false) else (
        record (remove_terminal_tab_metadata
            (record s {
              layout = layout;
              pane_workspace = erase pane s.pane_workspace;
              pane_uuids = erase pane s.pane_uuids;
              pane_titles = erase pane s.pane_titles;
              pane_agents = erase pane s.pane_agents;
            })
            pane) { panes = erase pane s.panes },
        true,
      )

  abbrev pub is_orphan : AppState R → ℕ × Pane → Bool
  is_orphan s (pane, p) =
      if p.is_satellite || contains pane s.anchors
      then false
      else not (is_owned s (lookup pane s.pane_workspace))
    where
      is_owned : AppState R → Option ℕ → Bool
      is_owned s none = false
      is_owned s (some owner) = contains owner s.anchors

  unfoldable pub orphans : AppState R → List (ℕ × Pane) → List ℕ
  orphans s [] = []
  orphans s ((pane, p) ∷ rest) =
      let more = orphans s rest in if is_orphan s (pane, p) then pane ∷ more else more

  unfoldable pub close_all : List ℕ → AppState R → AppState R
  close_all [] s = s
  close_all (pane ∷ rest) s = close_all rest (close_terminal_pane_without_focus s pane).0

  unfoldable pub close_orphan_terminal_panes : AppState R → AppState R
  close_orphan_terminal_panes s = close_all (orphans s s.panes) s

  -- `first_terminal_leaf`.
  unfoldable pub first_terminal_leaf : AppState R → Option ℕ
  first_terminal_leaf s = first_terminal s (leaves s.layout)

  -- The end of `ensure_anchor_invariant` and of `create_new_anchor`.
  unfoldable pub tag_and_activate : AppState R → ℕ → AppState R
  tag_and_activate s id =
      let (tagged, done) = tag_anchor_core s id in
      if done then set_active_anchor (ensure_terminal_tab_stack tagged id) (some id) else tagged

  -- The seed becomes the anchor that is missing.
  unfoldable pub seed_anchor : AppState R → ℕ → AppState R
  seed_anchor s seed =
      tag_and_activate
        (remove_terminal_tab_metadata (record s { pane_workspace = erase seed s.pane_workspace })
          seed)
        seed

  -- There is no active anchor.
  unfoldable pub activate_some_anchor : AppState R → AppState R
  activate_some_anchor s = elim (first s.anchors) [
    | some next ↦ set_active_anchor s (some next)
    | none ↦ elim (first_terminal_leaf s) [ none ↦ s | some seed ↦ seed_anchor s seed ]
  ]

  unfoldable pub ensure_anchor_invariant : AppState R → AppState R
  ensure_anchor_invariant s = elim s.active_anchor [
    | none ↦ activate_some_anchor s
    | some active ↦
        if contains active s.anchors
        then s
        else activate_some_anchor (record s { active_anchor = none })
  ]

  unfoldable pub add_anchor : AppState R → ℕ → AppState R
  add_anchor s target =
      let (tagged, done) = tag_anchor_core s target in
      if not done
      then tagged
      else set_active_anchor (ensure_terminal_tab_stack (close_orphan_terminal_panes tagged) target)
          (some target)

  unfoldable pub restore_anchor : AppState R → ℕ → AppState R
  restore_anchor s target =
      let (tagged, done) = tag_anchor_core s target in
      if done then ensure_terminal_tab_stack tagged target else tagged

  -- What `remove_anchor`, `close_focused` and `close_exited_pane` do first with an anchor that goes.
  unfoldable pub drop_anchor : AppState R → ℕ → AppState R
  drop_anchor s target = record s {
    anchors = without target s.anchors;
    pane_anchor_ids = erase target s.pane_anchor_ids;
    anchor_registry = elim (lookup target s.pane_anchor_ids) [
      | none ↦ s.anchor_registry
      | some id ↦ (lmux.Anchors.remove s.anchor_registry id).0
    ];
    hidden_anchors = without target s.hidden_anchors;
    pane_workspace = retain_map (λ pane owner. not (owner == target)) s.pane_workspace;
  }

  -- The next anchor takes the place of an active one that went.
  unfoldable pub replace_active : AppState R → ℕ → AppState R
  replace_active s target =
      if s.active_anchor == some target then set_active_anchor s (first s.anchors) else s

  unfoldable pub remove_anchor : AppState R → ℕ → AppState R
  remove_anchor s target =
      if not (contains target s.anchors)
      then s
      else ensure_anchor_invariant
          (replace_active (close_orphan_terminal_panes (drop_anchor s target)) target)

  -- The place after the active one, the first where there is none: `usize::MAX` plus one wraps to 0.
  abbrev pub next_place : AppState R → ℕ
  next_place s = elim s.active_anchor [
    | none ↦ 0
    | some cur ↦ elim (position cur s.anchors) [ none ↦ 0 | some i ↦ suc i ]
  ]

  -- The wrap-around step through the anchors; where there are none, the focused pane becomes one.
  unfoldable pub cycle_among : AppState R → List ℕ → AppState R
  cycle_among s [] = add_anchor s s.focused
  cycle_among s (a ∷ rest) =
      let next = nth_or a (a ∷ rest) (next_place s % length (a ∷ rest)) in
      if some next == s.active_anchor then s else set_active_anchor s (some next)

  unfoldable pub cycle_active_anchor : AppState R → AppState R
  cycle_active_anchor s = cycle_among s s.anchors
