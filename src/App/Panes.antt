-- ===== src/App/Panes.antt =====
-- Making, closing and focusing panes: crates/lmux/src/state.rs. `Pane::new` is the operating
-- system's: what it gives is an argument, `none` where it fails.
use lmux.Prelude.{
  ℕ, ◌+◌, ◌-◌, ◌%◌, Bool, true, false, not, ◌||◌, Option, none, some, List, [], ◌∷◌, ◌++◌, ◌==◌,
  nat_eq, option_eq, if◌then◌else◌, lookup, insert, erase, contains, contains_key, length,
  unwrap_or, or_else, ltb, leb,
}
use lmux.Layout.{Layout, Dir, Edge, leaves, replace_leaf, remove_leaf, is_leaf}
use lmux.Layout
use lmux.App.{AppState, Pane, Phase, active_terminal_tab, tab_root_for_pane}
use lmux.App.Tabs.{ensure_terminal_tab_stack, remove_terminal_tab_metadata}
use lmux.App.Anchors.{
  tag_and_activate, drop_anchor, replace_active, close_orphan_terminal_panes,
  ensure_anchor_invariant, position, nth_or,
}
use lmux.Satellites.{owning_anchor_for_terminal_pane}

abbrev pub u32_max : ℕ
u32_max = 4294967295

-- `checked_add(1)`, and `u32::MAX` where it overflows.
abbrev pub next_pane_id : ℕ → ℕ
next_pane_id n = if ltb n u32_max then n + 1 else u32_max

abbrev pub head_or : ℕ → List ℕ → ℕ
head_or d [] = d
head_or d (x ∷ xs) = x

-- The push of `create_terminal_tab_for_anchor`.
unfoldable pub push_tab : ℕ → ℕ → List (ℕ × List ℕ) → List (ℕ × List ℕ)
push_tab anchor new_id [] = (anchor, anchor ∷ new_id ∷ []) ∷ []
push_tab anchor new_id ((a, tabs) ∷ rest) =
    let later = push_tab anchor new_id rest in
    if a == anchor then (a, tabs ++ new_id ∷ []) ∷ rest else (a, tabs) ∷ later

abbrev pub exited : Option Pane → Bool
exited none = false
exited (some p) = p.has_exited

module _ {R : Type 0} where
  -- The leaf that is split, with the new pane below or to the right.
  unfoldable pub halved : R → Dir → ℕ → ℕ → Layout R
  halved half dir new_id id = Layout.split dir (Layout.leaf id) (Layout.leaf new_id) half

  -- A pane that found no place in the layout is forgotten, but for its workspace.
  unfoldable pub forget_pane : AppState R → ℕ → AppState R
  forget_pane s id =
      remove_terminal_tab_metadata
        (record s {
          panes = erase id s.panes;
          pane_uuids = erase id s.pane_uuids;
          pane_titles = erase id s.pane_titles;
          pane_agents = erase id s.pane_agents;
        })
        id

  -- The new pane is in the workspace and the tab of the focused one, if that has a workspace.
  unfoldable pub inherit_workspace : AppState R → ℕ → ℕ → AppState R
  inherit_workspace s target new_id = elim (lookup target s.pane_workspace) [
    | none ↦ s
    | some owner ↦
        let owned = record s { pane_workspace = insert new_id owner s.pane_workspace } in
        record owned {
          pane_terminal_tab_roots =
              insert new_id (tab_root_for_pane owned target) owned.pane_terminal_tab_roots;
        }
  ]

  unfoldable pub split_focused : R → AppState R → Dir → Option Pane → AppState R
  split_focused half s dir none = s
  split_focused half s dir (some new_pane) =
      let target = s.focused in
      let new_id = s.next_id in
      let made =
        inherit_workspace
          (record s {
            panes = insert new_id new_pane s.panes;
            pane_uuids = insert new_id s.fresh s.pane_uuids;
            fresh = s.fresh + 1;
          })
          target new_id in
      let (layout, replaced) = replace_leaf made.layout target (halved half dir new_id) in
      let placed = record made { next_id = next_pane_id made.next_id; layout = layout } in
      if not replaced then forget_pane placed new_id else placed

  -- The new pane without the workspace that it inherited, focused.
  unfoldable pub as_root : AppState R → ℕ → AppState R
  as_root s id =
      record (remove_terminal_tab_metadata (record s { pane_workspace = erase id s.pane_workspace })
        id) { focused = id }

  unfoldable pub create_new_anchor : R → AppState R → Option Pane → AppState R
  create_new_anchor half s new_pane =
      let split = split_focused half s Dir.vertical new_pane in
      if not (contains_key s.next_id split.panes)
      then split
      else tag_and_activate (as_root split s.next_id) s.next_id

  -- The new tab's pane beside the active tab's, from `Pane::new` on.
  unfoldable pub place_tab : R → AppState R → ℕ → ℕ → Pane → AppState R × Bool
  place_tab half s anchor target pane =
      let new_id = s.next_id in
      let (layout, replaced) = replace_leaf s.layout target (halved half Dir.vertical new_id) in
      let placed = record s {
        panes = insert new_id pane s.panes;
        pane_uuids = insert new_id s.fresh s.pane_uuids;
        fresh = s.fresh + 1;
        pane_workspace = insert new_id anchor s.pane_workspace;
        pane_terminal_tab_roots = insert new_id new_id s.pane_terminal_tab_roots;
        terminal_tabs_by_anchor = push_tab anchor new_id s.terminal_tabs_by_anchor;
        active_terminal_tab_by_anchor = insert anchor new_id s.active_terminal_tab_by_anchor;
        next_id = next_pane_id s.next_id;
        layout = layout;
      } in
      if not replaced
      then (forget_pane placed new_id, false)
      else (record placed { focused = new_id }, true)

  abbrev pub place_made : R → AppState R → ℕ → ℕ → Option Pane → AppState R × Bool
  place_made half s anchor target none = (s, false)
  place_made half s anchor target (some pane) = place_tab half s anchor target pane

  unfoldable pub create_terminal_tab_for_anchor :
      R → AppState R → ℕ → Option Pane → AppState R × Bool
  create_terminal_tab_for_anchor half s anchor new_pane =
      let stacked = ensure_terminal_tab_stack s anchor in
      let target = active_terminal_tab stacked anchor in
      if not (contains anchor s.anchors) || not (contains_key anchor s.panes)
      then (s, false)
      else if not (contains_key target stacked.panes)
      then (stacked, false)
      else place_made half stacked anchor target new_pane

  abbrev pub tab_at : R → AppState R → Option Pane → Option ℕ → AppState R × Bool
  tab_at half s new_pane (some anchor) = create_terminal_tab_for_anchor half s anchor new_pane
  tab_at half s new_pane none = (s, false)

  unfoldable pub create_terminal_tab_for_focused : R → AppState R → Option Pane → AppState R × Bool
  create_terminal_tab_for_focused half s new_pane =
      let target = s.focused in
      let owner =
        owning_anchor_for_terminal_pane target s.anchors s.pane_workspace s.terminal_tabs_by_anchor
          s.pane_terminal_tab_roots in
      let own = if contains target s.anchors then some target else none in
      tab_at half s new_pane (or_else (or_else owner own) s.active_anchor)

  -- The maps without a pane that is out of the layout: an anchor goes with its workspace.
  unfoldable pub disown : AppState R → ℕ → AppState R
  disown s target =
      if contains target s.anchors
      then replace_active (drop_anchor s target) target
      else record s { pane_workspace = erase target s.pane_workspace }

  unfoldable pub drop_pane : AppState R → ℕ → AppState R
  drop_pane s target =
      remove_terminal_tab_metadata
        (record s {
          panes = erase target s.panes;
          pane_uuids = erase target s.pane_uuids;
          pane_titles = erase target s.pane_titles;
          pane_agents = erase target s.pane_agents;
        })
        target

  unfoldable pub close_focused : AppState R → AppState R
  close_focused s =
      let target = s.focused in
      let (layout, found) = remove_leaf s.layout target in
      if is_leaf s.layout target
      then s
      else if not found
      then record s { layout = layout }
      else let left = disown (record s { layout = layout }) target in
        let gone = if contains_key target left.panes then drop_pane left target else left in
        let kept = ensure_anchor_invariant (close_orphan_terminal_panes gone) in
        record kept { focused = head_or target (leaves kept.layout) }

  unfoldable pub close_exited_pane : AppState R → ℕ → AppState R
  close_exited_pane s target =
      let (layout, found) = remove_leaf s.layout target in
      if is_leaf s.layout target
      then s
      else if not (exited (lookup target s.panes))
      then s
      else if not found
      then record s { layout = layout }
      else let gone = drop_pane (disown (record s { layout = layout }) target) target in
        let kept = ensure_anchor_invariant (close_orphan_terminal_panes gone) in
        if kept.focused == target || not (contains_key kept.focused kept.panes)
        then record kept { focused = head_or kept.focused (leaves kept.layout) }
        else kept

  unfoldable pub set_focused : AppState R → ℕ → AppState R
  set_focused s id = if contains_key id s.panes then record s { focused = id } else s

  unfoldable pub cycle_focus : AppState R → Bool → AppState R
  cycle_focus s forward =
      let ids = leaves s.layout in
      let n = length ids in
      let idx = unwrap_or (position s.focused ids) 0 in
      if leb n 1 then s else record s {
        focused = nth_or s.focused ids (if forward then (idx + 1) % n else ((idx + n) - 1) % n);
      }

  unfoldable pub reparent_pane : R → AppState R → ℕ → ℕ → Edge → AppState R
  reparent_pane half s source target edge =
      if source == target
      then s
      else if not (lookup source s.pane_workspace == lookup target s.pane_workspace)
      then s
      else record s { layout = (lmux.Layout.reparent half s.layout source target edge).0 }

  unfoldable pub drain_panes_for_shutdown : AppState R → AppState R × List (ℕ × Pane)
  drain_panes_for_shutdown s = (
    record s {
      anchors = [];
      pane_anchor_ids = [];
      pane_uuids = [];
      pane_titles = [];
      pane_agents = [];
      grants = [];
      terminal_tabs_by_anchor = [];
      active_terminal_tab_by_anchor = [];
      pane_terminal_tab_roots = [];
      pane_workspace = [];
      hidden_anchors = [];
      last_notif_id = [];
      panes = [];
    },
    s.panes,
  )

  unfoldable pub begin_shutdown : AppState R → AppState R × Option (List (ℕ × Pane))
  begin_shutdown s = elim s.phase [
    | Phase.shutting_down ↦ (s, none)
    | Phase.running ↦
        let (s', panes) = drain_panes_for_shutdown (record s { phase = Phase.shutting_down }) in
        (s', some panes)
  ]
