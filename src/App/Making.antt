-- ===== src/App/Making.antt =====
-- A pane made over the bus: `create_pane_from_bus` of crates/lmux/src/state.rs, and `send_input` of
-- crates/lmux/src/pane.rs. Writing to a terminal is the operating system's: what it gives is an
-- argument, as are the pane that `Pane::new` gives and the agent of the environment of its child.
pub mod Kept
pub mod Examples
pub mod Places
pub mod Steps
use lmux.Prelude.{
  ℕ, ◌+◌, Bool, true, false, not, ◌&&◌, Option, none, some, List, [], ◌∷◌, ◌++◌, ◌==◌, nat_eq, Text,
  if◌then◌else◌, lookup, insert, contains, contains_key, is_some, is_none, is_empty, or_else,
  unwrap_or, Result, ok, err,
}
use lmux.Bus.Errors.{BusError}
use lmux.Bus.Kinds.{AgentIdentity, PaneTitle, PaneTitleProvenance, PanePlacement}
use lmux.Bus.Catalog.{PaneNew, PaneNewResult}
use lmux.Grants.{AgentPaneMetadata, owner_anchor}
use lmux.Layout.{Layout, Dir, replace_leaf}
use lmux.Shell.{shell_command_line}
use lmux.App.{AppState, Pane, tab_root_for_pane}
use lmux.App.Access.{
  Failure, unknown_anchor, not_live, not_in_layout, allocation_failed, not_a_terminal, pane_new,
  pane_for_anchor_id,
}
use lmux.App.Tabs.{ensure_terminal_tab_stack}
use lmux.App.Panes.{next_pane_id, halved, forget_pane, push_tab}

-- `Pane::send_input`, with the write to the terminal.
abbrev pub send_input : Pane → (Text → Result Failure (Unit {0})) → Text → Result Failure (Unit {0})
send_input p write text =
    if p.is_satellite then err (BusError.transcript_unavailable not_a_terminal) else write text

abbrev pub split_dir : PanePlacement → Dir
split_dir PanePlacement.tab = Dir.vertical
split_dir PanePlacement.split_right = Dir.vertical
split_dir PanePlacement.split_down = Dir.horizontal

abbrev pub made_title : Text → Option AgentIdentity → PaneTitle
made_title title agent = record {
  title = title;
  provenance = if is_some agent then PaneTitleProvenance.agent else PaneTitleProvenance.user;
  pinned = is_none agent;
}

-- The command is typed into the new pane.
abbrev pub type_command :
    List Text → Pane → (Text → Result Failure (Unit {0})) → Result Failure (Unit {0})
type_command argv p write =
    if is_empty argv then ok tt else send_input p write (shell_command_line argv ++ b'\n' ∷ [])

module _ {R : Type 0} where
  abbrev pub bus_target : AppState R → Option ℕ → Result Failure ℕ
  bus_target s none = ok (unwrap_or s.active_anchor s.focused)
  bus_target s (some uuid) = elim (pane_for_anchor_id s uuid) [
    | none ↦ err (BusError.domain (unknown_anchor pane_new uuid))
    | some target ↦ ok target
  ]

  abbrev pub owned_by : AppState R → ℕ → Option ℕ → AppState R
  owned_by s new_id none = s
  owned_by s new_id (some owner) =
      ensure_terminal_tab_stack (record s { pane_workspace = insert new_id owner s.pane_workspace })
        owner

  abbrev pub titled : AppState R → ℕ → Option Text → Option AgentIdentity → AppState R
  titled s new_id none agent = s
  titled s new_id (some title) agent = record s {
    pane_titles = insert new_id (made_title title agent) s.pane_titles;
  }

  abbrev pub with_agent : AppState R → ℕ → Option AgentIdentity → Option Text → AppState R
  with_agent s new_id none purpose = s
  with_agent s new_id (some agent) purpose = record s {
    pane_agents = insert new_id (record { agent = agent; purpose = purpose }) s.pane_agents;
  }

  abbrev pub as_tab : AppState R → ℕ → ℕ → Bool → AppState R
  as_tab s new_id owner activate = record s {
    pane_terminal_tab_roots = insert new_id new_id s.pane_terminal_tab_roots;
    terminal_tabs_by_anchor = push_tab owner new_id s.terminal_tabs_by_anchor;
    active_terminal_tab_by_anchor =
        if activate
        then insert owner new_id s.active_terminal_tab_by_anchor
        else s.active_terminal_tab_by_anchor;
  }

  abbrev pub in_tab_of : AppState R → ℕ → ℕ → AppState R
  in_tab_of s new_id target = record s {
    pane_terminal_tab_roots = insert new_id (tab_root_for_pane s target) s.pane_terminal_tab_roots;
  }

  abbrev pub tabbed : AppState R → ℕ → ℕ → Option ℕ → PanePlacement → Bool → AppState R
  tabbed s new_id target none placement activate = s
  tabbed s new_id target (some owner) PanePlacement.tab activate = as_tab s new_id owner activate
  tabbed s new_id target (some owner) PanePlacement.split_right activate = in_tab_of s new_id target
  tabbed s new_id target (some owner) PanePlacement.split_down activate = in_tab_of s new_id target

  abbrev pub focus_made : AppState R → ℕ → Bool → AppState R
  focus_made s new_id activate = if activate then record s { focused = new_id } else s

  -- `owner.and_then(..).unwrap_or_else(Uuid::nil)`.
  abbrev pub anchor_uuid_or_nil : AppState R → Option ℕ → ℕ
  anchor_uuid_or_nil s none = 0
  anchor_uuid_or_nil s (some owner) = unwrap_or (lookup owner s.pane_anchor_ids) 0

  -- From the command on: if it cannot be typed, the pane is there all the same.
  abbrev pub started :
      AppState R
      → ℕ
      → ℕ
      → Option ℕ
      → PaneNew
      → Result Failure (Unit {0})
      → AppState R × Result Failure PaneNewResult
  started s new_id uuid owner r (err e) = (s, err e)
  started s new_id uuid owner r (ok done) = (
    focus_made s new_id r.activate,
    ok (record { pane_id = uuid; anchor_id = anchor_uuid_or_nil s owner; placement = r.placement }),
  )

  -- From the split of the layout on.
  unfoldable pub described :
      AppState R → ℕ → ℕ → Option ℕ → PaneNew → Option AgentIdentity → AppState R
  described s new_id target owner r agent =
      tabbed (with_agent (titled s new_id r.title agent) new_id agent r.purpose) new_id target owner
        r.placement r.activate

  -- `create_pane_from_bus` from `Pane::new` on.
  unfoldable pub make_beside :
      R
      → AppState R
      → PaneNew
      → ℕ
      → Pane
      → Option AgentIdentity
      → (Text → Result Failure (Unit {0}))
      → AppState R × Result Failure PaneNewResult
  make_beside half s r target pane child write =
      let new_id = s.next_id in
      let uuid = s.fresh in
      let agent = or_else r.agent child in
      let owner = owner_anchor target s.anchors s.pane_workspace in
      let made =
        owned_by
          (record s {
            panes = insert new_id pane s.panes;
            pane_uuids = insert new_id uuid s.pane_uuids;
            fresh = s.fresh + 1;
          })
          new_id owner in
      let (layout, replaced) =
        replace_leaf made.layout target (halved half (split_dir r.placement) new_id) in
      let placed = record made { next_id = next_pane_id made.next_id; layout = layout } in
      if not replaced
      then (forget_pane placed new_id, err (BusError.domain (not_in_layout target)))
      else started (described placed new_id target owner r agent) new_id uuid owner r
          (type_command r.argv pane write)

  abbrev pub make_at :
      R
      → AppState R
      → PaneNew
      → Option Pane
      → Option AgentIdentity
      → (Text → Result Failure (Unit {0}))
      → Result Failure ℕ
      → AppState R × Result Failure PaneNewResult
  make_at half s r pane child write (err e) = (s, err e)
  make_at half s r pane child write (ok target) =
      if not (contains_key target s.panes)
      then (s, err (BusError.domain (not_live target)))
      else elim pane [
        | none ↦ (s, err (BusError.domain allocation_failed))
        | some p ↦ make_beside half s r target p child write
      ]

  unfoldable pub create_pane_from_bus :
      R
      → AppState R
      → PaneNew
      → Option Pane
      → Option AgentIdentity
      → (Text → Result Failure (Unit {0}))
      → AppState R × Result Failure PaneNewResult
  create_pane_from_bus half s r pane child write =
      make_at half s r pane child write (bus_target s r.target_anchor)
