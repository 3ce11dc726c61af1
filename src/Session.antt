-- ===== src/Session.antt =====
-- Named sessions: crates/lmux-session/src/lib.rs, and the index of them, newest first. A time (a
-- `u64`) is a natural number, which is only stored and compared.
pub mod Index
pub mod Store
pub mod Migration
pub mod Names
pub mod Frame
pub mod SaveLoad
pub mod Collision
pub mod Malformed
pub mod Examples
use lmux.Prelude.{
  ℕ, Bool, true, false, not, Option, none, some, List, [], ◌∷◌, ◌==◌, nat_eq, list_eq, Text,
  if◌then◌else◌, leb, sort_by, insert_by, retain,
}
use lmux.State.Snapshot.{LayoutNode, PaneTitleSnapshot, TerminalTabStackSnapshot, SessionSnapshot}

pub record AnchorRef : Type 0 where
  pub pane_id : ℕ
  pub argv : List Text
  pub cwd : Text
  pub hide_on_session_close : Bool

pub record Session (R : Type 0) : Type 0 where
  pub name : Text
  pub created_at_unix_seconds : ℕ
  pub last_opened_at_unix_seconds : ℕ
  pub layout : LayoutNode R
  pub cwds : List (ℕ × Text)
  pub anchors : List AnchorRef
  pub pane_titles : List (ℕ × PaneTitleSnapshot)
  pub terminal_tabs : List TerminalTabStackSnapshot
  pub pane_terminal_tab_roots : List (ℕ × ℕ)

unfoldable pub empty : {R : Type 0} → Text → ℕ → Session R
empty name now = record {
  name = name;
  created_at_unix_seconds = now;
  last_opened_at_unix_seconds = now;
  layout = LayoutNode.leaf 1;
  cwds = [];
  anchors = [];
  pane_titles = [];
  terminal_tabs = [];
  pane_terminal_tab_roots = [];
}

unfoldable pub from_v01_snapshot : {R : Type 0} → Text → SessionSnapshot R → ℕ → Session R
from_v01_snapshot name snap now = record {
  name = name;
  created_at_unix_seconds = snap.created_at_unix_seconds;
  last_opened_at_unix_seconds = now;
  layout = snap.layout;
  cwds = snap.cwds;
  anchors = [];
  pane_titles = snap.pane_titles;
  terminal_tabs = snap.terminal_tabs;
  pane_terminal_tab_roots = snap.pane_terminal_tab_roots;
}

pub record IndexEntry : Type 0 where
  pub name : Text
  pub last_opened_at_unix_seconds : ℕ

pub record SessionIndex : Type 0 where
  pub entries : List IndexEntry

-- `SessionIndex::default`.
abbrev pub no_entries : SessionIndex
no_entries = record { entries = [] }

-- The first entry of the name gets the time, and a name without an entry gets one at the end.
unfoldable pub set_time : Text → ℕ → List IndexEntry → List IndexEntry
set_time name now [] = record { name = name; last_opened_at_unix_seconds = now } ∷ []
set_time name now (e ∷ es) =
    if e.name == name
    then record e { last_opened_at_unix_seconds = now } ∷ es
    else e ∷ set_time name now es

abbrev pub newer : IndexEntry → IndexEntry → Bool
newer a b = leb b.last_opened_at_unix_seconds a.last_opened_at_unix_seconds

unfoldable pub touch : SessionIndex → Text → ℕ → SessionIndex
touch i name now = record { entries = sort_by newer (set_time name now i.entries) }

unfoldable pub remove : SessionIndex → Text → SessionIndex
remove i name = record { entries = retain (λ e. not (e.name == name)) i.entries }

unfoldable pub rename_first : Text → Text → List IndexEntry → List IndexEntry
rename_first from to [] = []
rename_first from to (e ∷ es) =
    if e.name == from then record e { name = to } ∷ es else e ∷ rename_first from to es

unfoldable pub rename : SessionIndex → Text → Text → SessionIndex
rename i from to = record { entries = rename_first from to i.entries }
