-- ===== src/State/Snapshot.antt =====
-- The saved form of a session: crates/lmux-state/src/lib.rs, and its conversions in
-- crates/lmux/src/state.rs. The ratio is a parameter as in the layout. The maps are association
-- lists. The JSON text is made and read by serde_json, which is a parameter of `load` and `save`.
use lmux.Prelude.{ℕ, Bool, Option, none, some, List, [], ◌∷◌, nat_eq, Text, if◌then◌else◌, is_empty}
use lmux.Layout.{Layout, Dir}
use lmux.Bus.Kinds.{PaneTitle, PaneTitleProvenance}

pub data SplitDir : Type 0 where
  horizontal vertical : SplitDir

pub data LayoutNode (R : Type 0) : Type 0 where
  leaf : ℕ → LayoutNode R
  split : SplitDir → LayoutNode R → LayoutNode R → R → LayoutNode R

pub data PaneTitleProvenanceSnapshot : Type 0 where
  default agent user : PaneTitleProvenanceSnapshot

pub record PaneTitleSnapshot : Type 0 where
  pub title : Text
  pub provenance : PaneTitleProvenanceSnapshot
  pub pinned : Bool

pub record TerminalTabStackSnapshot : Type 0 where
  pub anchor_pane_id : ℕ
  pub tab_roots : List ℕ
  pub active_tab : Option ℕ

pub record SessionSnapshot (R : Type 0) : Type 0 where
  pub v : ℕ
  pub created_at_unix_seconds : ℕ
  pub anchor_pane_id : Option ℕ
  pub anchor_pane_ids : List ℕ
  pub layout : LayoutNode R
  pub cwds : List (ℕ × Text)
  pub pane_titles : List (ℕ × PaneTitleSnapshot)
  pub terminal_tabs : List TerminalTabStackSnapshot
  pub pane_terminal_tab_roots : List (ℕ × ℕ)

abbrev option_list : {A : Type 0} → Option A → List A
option_list none = []
option_list (some x) = x ∷ []

-- `SessionSnapshot::anchors`.
unfoldable pub anchors : {R : Type 0} → SessionSnapshot R → List ℕ
anchors s = if is_empty s.anchor_pane_ids then option_list s.anchor_pane_id else s.anchor_pane_ids

unfoldable pub dir_to_snapshot : Dir → SplitDir
dir_to_snapshot Dir.horizontal = SplitDir.horizontal
dir_to_snapshot Dir.vertical = SplitDir.vertical

unfoldable pub dir_from_snapshot : SplitDir → Dir
dir_from_snapshot SplitDir.horizontal = Dir.horizontal
dir_from_snapshot SplitDir.vertical = Dir.vertical

unfoldable pub layout_to_snapshot : {R : Type 0} → Layout R → LayoutNode R
layout_to_snapshot (Layout.leaf id) = LayoutNode.leaf id
layout_to_snapshot (Layout.split dir a b ratio) =
    LayoutNode.split (dir_to_snapshot dir) (layout_to_snapshot a) (layout_to_snapshot b) ratio

unfoldable pub layout_from_snapshot : {R : Type 0} → LayoutNode R → Layout R
layout_from_snapshot (LayoutNode.leaf pane_id) = Layout.leaf pane_id
layout_from_snapshot (LayoutNode.split dir a b ratio) =
    Layout.split (dir_from_snapshot dir) (layout_from_snapshot a) (layout_from_snapshot b) ratio

unfoldable pub provenance_to_snapshot : PaneTitleProvenance → PaneTitleProvenanceSnapshot
provenance_to_snapshot PaneTitleProvenance.default = PaneTitleProvenanceSnapshot.default
provenance_to_snapshot PaneTitleProvenance.agent = PaneTitleProvenanceSnapshot.agent
provenance_to_snapshot PaneTitleProvenance.user = PaneTitleProvenanceSnapshot.user

unfoldable pub provenance_from_snapshot : PaneTitleProvenanceSnapshot → PaneTitleProvenance
provenance_from_snapshot PaneTitleProvenanceSnapshot.default = PaneTitleProvenance.default
provenance_from_snapshot PaneTitleProvenanceSnapshot.agent = PaneTitleProvenance.agent
provenance_from_snapshot PaneTitleProvenanceSnapshot.user = PaneTitleProvenance.user

unfoldable pub pane_title_to_snapshot : PaneTitle → PaneTitleSnapshot
pane_title_to_snapshot t = record {
  title = t.title;
  provenance = provenance_to_snapshot t.provenance;
  pinned = t.pinned;
}

unfoldable pub pane_title_from_snapshot : PaneTitleSnapshot → PaneTitle
pane_title_from_snapshot t = record {
  title = t.title;
  provenance = provenance_from_snapshot t.provenance;
  pinned = t.pinned;
}
