-- ===== src/App.antt =====
-- The bookkeeping of `AppState` in crates/lmux/src/state.rs: panes, layout, anchors, workspaces and
-- terminal tabs. What GTK shows (visibility, style classes, the widget tree, the focus of a widget),
-- the callbacks and the child processes are no part of the state. `Uuid::new_v4` takes the next of a
-- supply, and what `anchor_spawn_metadata` reads of a pane is a field of it.
pub mod Tabs
pub mod Anchors
pub mod Panes
pub mod Consistent
pub mod Invariant
pub mod Tagging
pub mod Splitting
pub mod Creating
pub mod Closing
pub mod Quiet
pub mod Ids
pub mod Orphans
pub mod Owned
pub mod Unasked
pub mod Access
pub mod Making
pub mod Hosted
pub mod Runs
pub mod Screen
pub mod Shown
pub mod Control
pub mod Examples
use lmux.Prelude.{
  ℕ, ◌+◌, Bool, true, false, not, ◌&&◌, Option, none, some, List, [], ◌∷◌, ◌==◌, nat_eq, option_eq,
  Text, if◌then◌else◌, lookup, contains_key, or_else, unwrap_or,
}
use lmux.Layout.{Layout}
use lmux.Anchors.{Registry}
use lmux.Bus.Kinds.{PaneTitle}
use lmux.Grants.{AgentPaneMetadata, Grants}

pub record Pane : Type 0 where
  pub is_satellite : Bool
  pub has_exited : Bool
  pub argv : List Text
  pub cwd : Text

pub data Phase : Type 0 where
  running shutting_down : Phase

pub record AppState (R : Type 0) : Type 0 where
  pub panes : List (ℕ × Pane)
  pub layout : Layout R
  pub focused : ℕ
  pub next_id : ℕ
  pub anchors : List ℕ
  pub pane_anchor_ids : List (ℕ × ℕ)
  pub pane_uuids : List (ℕ × ℕ)
  pub pane_titles : List (ℕ × PaneTitle)
  pub pane_agents : List (ℕ × AgentPaneMetadata)
  pub grants : Grants
  pub terminal_tabs_by_anchor : List (ℕ × List ℕ)
  pub active_terminal_tab_by_anchor : List (ℕ × ℕ)
  pub pane_terminal_tab_roots : List (ℕ × ℕ)
  pub pane_workspace : List (ℕ × ℕ)
  pub anchor_registry : Registry
  pub active_anchor : Option ℕ
  pub hidden_anchors : List ℕ
  pub last_notif_id : List (ℕ × ℕ)
  pub surface_to_pane : List (ℕ × ℕ)
  pub phase : Phase
  pub fresh : ℕ

abbrev pub is_terminal : Option Pane → Bool
is_terminal none = false
is_terminal (some p) = not p.is_satellite

module _ {R : Type 0} where
  -- `AppState::new`, with the uuid that it draws.
  unfoldable pub new : ℕ → Pane → ℕ → AppState R
  new id first fresh = record {
    panes = (id, first) ∷ [];
    layout = Layout.leaf id;
    focused = id;
    next_id = id + 1;
    anchors = [];
    pane_anchor_ids = [];
    pane_uuids = (id, fresh) ∷ [];
    pane_titles = [];
    pane_agents = [];
    grants = [];
    terminal_tabs_by_anchor = [];
    active_terminal_tab_by_anchor = [];
    pane_terminal_tab_roots = [];
    pane_workspace = [];
    anchor_registry = [];
    active_anchor = none;
    hidden_anchors = [];
    last_notif_id = [];
    surface_to_pane = [];
    phase = running;
    fresh = fresh + 1;
  }

  abbrev pub first_terminal : AppState R → List ℕ → Option ℕ
  first_terminal s [] = none
  first_terminal s (id ∷ ids) =
      let rest = first_terminal s ids in if is_terminal (lookup id s.panes) then some id else rest

  -- `pane_in_active_workspace`.
  unfoldable pub pane_in_active_workspace : AppState R → ℕ → Bool
  pane_in_active_workspace s pane = elim s.active_anchor [
    | none ↦ true
    | some active ↦ lookup pane s.pane_workspace == some active
  ]

  unfoldable pub active_terminal_tab : AppState R → ℕ → ℕ
  active_terminal_tab s anchor = unwrap_or (lookup anchor s.active_terminal_tab_by_anchor) anchor

  unfoldable pub tab_root_for_pane : AppState R → ℕ → ℕ
  tab_root_for_pane s pane =
      unwrap_or (or_else (lookup pane s.pane_terminal_tab_roots) (lookup pane s.pane_workspace))
        pane
