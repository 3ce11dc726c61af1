-- ===== src/Mcp.antt =====
-- The MCP server, crates/lmux-mcp/src/lib.rs: the tools, what they ask of the bus, and the messages on
-- the standard streams. JSON and the arguments of a tool are read by serde_json: a parameter.
pub mod Tools
pub mod Stdio
pub mod Framing
pub mod Ends
pub mod Examples
use lmux.Prelude.{
  ℕ, Bool, true, false, not, Option, none, some, List, [], ◌∷◌, ◌==◌, nat_eq, list_eq, Text,
  if◌then◌else◌, is_empty, unwrap_or, Result, ok, err,
}
use lmux.Anchors.{trim}
use lmux.Bus.Kinds.{AgentIdentity, PanePlacement}
use lmux.Bus.Catalog.{Kind, PaneNew, LaunchAttach, WindowCandidate, WindowCandidateBackend}
use lmux.Bus.Catalog

pub record PaneNewArgs : Type 0 where
  pub anchor : Option Text
  pub placement : Option Text
  pub activate : Bool
  pub title : Option Text
  pub purpose : Option Text
  pub argv : List Text

pub record PaneTailArgs : Type 0 where
  pub pane_id : ℕ
  pub lines : Option ℕ

pub record PaneCaptureArgs : Type 0 where
  pub pane_id : ℕ
  pub since_sequence : Option ℕ
  pub max_lines : Option ℕ

-- The arguments of `pane_send`, and of `pane_rename` with the title as the text.
pub record PaneTextArgs : Type 0 where
  pub pane_id : ℕ
  pub text : Text

pub record AttachWindowArgs : Type 0 where
  pub backend : WindowCandidateBackend
  pub backend_window_id : Text
  pub pid : Option ℕ
  pub title : Option Text

pub record LaunchArgs : Type 0 where
  pub argv : List Text
  pub title_hint : Option Text
  pub app_hint : Option Text
  pub timeout_ms : Option ℕ

-- `serde_json::from_value` at each of the types of arguments, and `Uuid`'s parser.
pub record Serde (V : Type 0) : Type 0 where
  pub pane_new : V → Result Text PaneNewArgs
  pub pane_tail : V → Result Text PaneTailArgs
  pub pane_capture : V → Result Text PaneCaptureArgs
  pub pane_send : V → Result Text PaneTextArgs
  pub pane_rename : V → Result Text PaneTextArgs
  pub attach_window : V → Result Text AttachWindowArgs
  pub launch : V → Result Text LaunchArgs
  pub parse_uuid : Text → Result Text ℕ

-- What the text of an error says.
pub data ToolError : Type 0 where
  invalid_arguments invalid_anchor_uuid invalid_placement unknown_tool : Text → ToolError

-- The names that the code compares with, as code points.
pub data ToolName : Type 0 where
  anchor_list pane_new pane_tail pane_capture pane_send pane_rename : ToolName
  satellite_list_windows satellite_attach_window satellite_launch : ToolName
  other : Text → ToolName

abbrev pub default_tail_lines : ℕ
default_tail_lines = 80

abbrev pub current : Text
current = b'c' ∷ b'u' ∷ b'r' ∷ b'r' ∷ b'e' ∷ b'n' ∷ b't' ∷ []

abbrev pub tab : Text
tab = b't' ∷ b'a' ∷ b'b' ∷ []

abbrev pub split_right : Text
split_right = b's' ∷ b'p' ∷ b'l' ∷ b'i' ∷ b't' ∷ b'_' ∷ b'r' ∷ b'i' ∷ b'g' ∷ b'h' ∷ b't' ∷ []

abbrev pub split_down : Text
split_down = b's' ∷ b'p' ∷ b'l' ∷ b'i' ∷ b't' ∷ b'_' ∷ b'd' ∷ b'o' ∷ b'w' ∷ b'n' ∷ []

-- `map_err` and `?` in front of what follows.
abbrev pub and_then : {E F A B : Type 0} → (E → F) → Result E A → (A → Result F B) → Result F B
and_then wrap (err e) next = err (wrap e)
and_then wrap (ok a) next = next a

abbrev pub same : {E : Type 0} → E → E
same e = e

module _ {V : Type 0} (serde : Serde V) where
  unfoldable pub parse_optional_anchor : Option Text → Result ToolError (Option ℕ)
  parse_optional_anchor none = ok none
  parse_optional_anchor (some value) =
      if value == current
      then ok none
      else and_then ToolError.invalid_anchor_uuid (serde.parse_uuid value) λ uuid. ok (some uuid)

  unfoldable pub parse_placement : Option Text → Result ToolError PanePlacement
  parse_placement value =
      let name = unwrap_or value split_right in
      if name == tab
      then ok PanePlacement.tab
      else if name == split_right
      then ok PanePlacement.split_right
      else if name == split_down
      then ok PanePlacement.split_down
      else err (ToolError.invalid_placement name)

  unfoldable pub kind_for_tool : ToolName → V → Option AgentIdentity → Result ToolError Kind
  kind_for_tool ToolName.anchor_list args agent = ok Kind.anchor_list
  kind_for_tool ToolName.pane_new args agent =
      and_then ToolError.invalid_arguments (serde.pane_new args) λ a.
        and_then same (parse_optional_anchor a.anchor) λ target.
          and_then same (parse_placement a.placement) λ placement. ok (
            Kind.pane_new (record {
              target_anchor = target;
              placement = placement;
              activate = a.activate;
              title = a.title;
              argv = a.argv;
              agent = agent;
              purpose = a.purpose;
            }))
  kind_for_tool ToolName.pane_tail args agent =
      and_then ToolError.invalid_arguments (serde.pane_tail args)
        λ a. ok (Kind.pane_tail a.pane_id (unwrap_or a.lines default_tail_lines) agent)
  kind_for_tool ToolName.pane_capture args agent =
      and_then ToolError.invalid_arguments (serde.pane_capture args)
        λ a. ok (Kind.pane_capture a.pane_id a.since_sequence a.max_lines agent)
  kind_for_tool ToolName.pane_send args agent =
      and_then ToolError.invalid_arguments (serde.pane_send args)
        λ a. ok (Kind.pane_send_input a.pane_id a.text agent)
  kind_for_tool ToolName.pane_rename args agent =
      and_then ToolError.invalid_arguments (serde.pane_rename args)
        λ a. ok (Kind.pane_rename a.pane_id a.text false agent)
  kind_for_tool ToolName.satellite_list_windows args agent = ok Kind.satellite_list_windows
  kind_for_tool ToolName.satellite_attach_window args agent =
      and_then ToolError.invalid_arguments (serde.attach_window args) λ a. ok (
        Kind.satellite_attach_window
          (record {
            backend = a.backend;
            backend_window_id = a.backend_window_id;
            pid = a.pid;
            app_identity = none;
            title = a.title;
            workspace = none;
            output = none;
          })
          agent)
  kind_for_tool ToolName.satellite_launch args agent =
      and_then ToolError.invalid_arguments (serde.launch args) λ a. ok (
        Kind.satellite_launch_attach (record {
          argv = a.argv;
          title_hint = a.title_hint;
          app_hint = a.app_hint;
          timeout_ms = a.timeout_ms;
          agent = agent;
        }))
  kind_for_tool (ToolName.other name) args agent = err (ToolError.unknown_tool name)

-- `.filter(|value| !value.trim().is_empty())` on a variable of the environment.
abbrev pub non_blank : Option Text → Option Text
non_blank none = none
non_blank (some value) = if is_empty (trim value) then none else some value

-- The variables `LMUX_AGENT_ID` and `LMUX_AGENT_NAME`, and what stands in for them.
unfoldable pub agent_from_env : Option Text → Option Text → Option AgentIdentity
agent_from_env id name = some (record {
  id = unwrap_or (non_blank id) (b'l' ∷ b'm' ∷ b'u' ∷ b'x' ∷ b'-' ∷ b'm' ∷ b'c' ∷ b'p' ∷ []);
  name =
      some
        (unwrap_or (non_blank name) (b'l' ∷ b'm' ∷ b'u' ∷ b'x' ∷ b' ' ∷ b'M' ∷ b'C' ∷ b'P' ∷ []));
})
