-- ===== src/App/Ids.antt =====
-- The next pane's id through the operations that make panes, of crates/lmux/src/state.rs.
use lmux.Prelude.{ℕ, ◌+◌, ◌≤◌, Option, none, some, nat_eq, option_eq, insert, arith}
use lmux.Layout.{Dir}
use lmux.App.{AppState, Pane, active_terminal_tab}
use lmux.App.Tabs.{ensure_terminal_tab_stack, remove_terminal_tab_metadata}
use lmux.App.Panes.{
  next_pane_id, forget_pane, split_focused, as_root, create_new_anchor, place_tab, place_made,
  create_terminal_tab_for_anchor,
}
use lmux.App.Quiet.{ensure_tab-Quiet, tag_and_activate-Quiet}
use lmux.App.Splitting.{inherited-fields}

pub next_pane_id-bound : (n : ℕ) → next_pane_id n ≤ n + 1
next_pane_id-bound n = ground arith

module _ {R : Type 0} where
  pub split_focused-next :
      (half : R) (s : AppState R) (dir : Dir) (pane : Option Pane)
      → (split_focused half s dir pane).next_id ≤ s.next_id + 1
  unfolding split_focused forget_pane remove_terminal_tab_metadata
  split_focused-next half s dir none = omega arith
  split_focused-next half s dir (some pane) =
      let added : AppState R = record s {
        panes = insert s.next_id pane s.panes;
        pane_uuids = insert s.next_id s.fresh s.pane_uuids;
        fresh = s.fresh + 1;
      } in
      ground (arith, inherited-fields added s.focused s.next_id, next_pane_id-bound s.next_id)

  pub create_new_anchor-next :
      (half : R) (s : AppState R) (pane : Option Pane)
      → (create_new_anchor half s pane).next_id ≤ s.next_id + 1
  unfolding create_new_anchor as_root remove_terminal_tab_metadata
  create_new_anchor-next half s pane =
      let split = split_focused half s Dir.vertical pane in
      ground (
        arith,
        split_focused-next half s Dir.vertical pane,
        tag_and_activate-Quiet (as_root split s.next_id) s.next_id,
      )

  place_tab-next :
      (half : R) (s : AppState R) (anchor target : ℕ) (pane : Pane)
      → (place_tab half s anchor target pane).0.next_id ≤ s.next_id + 1
  unfolding place_tab forget_pane remove_terminal_tab_metadata
  place_tab-next half s anchor target pane = ground (arith, next_pane_id-bound s.next_id)

  place_made-next :
      (half : R) (s : AppState R) (anchor target : ℕ) (pane : Option Pane)
      → (place_made half s anchor target pane).0.next_id ≤ s.next_id + 1
  place_made-next half s anchor target none = omega arith
  place_made-next half s anchor target (some pane) = place_tab-next half s anchor target pane

  pub create_terminal_tab-next :
      (half : R) (s : AppState R) (anchor : ℕ) (pane : Option Pane)
      → (create_terminal_tab_for_anchor half s anchor pane).0.next_id ≤ s.next_id + 1
  unfolding create_terminal_tab_for_anchor
  create_terminal_tab-next half s anchor pane =
      let stacked = ensure_terminal_tab_stack s anchor in
      ground (
        arith,
        ensure_tab-Quiet s anchor,
        place_made-next half stacked anchor (active_terminal_tab stacked anchor) pane,
      )
