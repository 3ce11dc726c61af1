-- ===== src/Bus/Catalog.antt =====
-- The catalog of messages, `Kind` of crates/lmux-bus/src/kinds.rs, with the payloads that only it
-- uses. A `Uuid` is a number, an `i32` an integer; the names on the wire are serde's.
use lmux.Prelude.{ℕ, ℤ, Bool, Option, List, Text}
use lmux.Bus.Errors.{ErrorCode}
use lmux.Bus.Kinds.{
  AgentIdentity, PanePlacement, TranscriptRange, GrantRequest, GrantDecision, AgentPaneStatus,
}

pub record Rect : Type 0 where
  pub x : ℤ
  pub y : ℤ
  pub w : ℕ
  pub h : ℕ

pub record CompositorWindowId : Type 0 where
  pub window : Text

pub data ClientRole : Type 0 where
  lmux_cli kwin_script satellite plugin lmux_mcp : ClientRole

pub data CompositorState : Type 0 where
  online offline : CompositorState

pub data AnchorState : Type 0 where
  live paused hidden dead : AnchorState

pub record SessionSummary : Type 0 where
  pub name : Text
  pub created_at_unix_seconds : ℕ
  pub last_active_unix_seconds : Option ℕ

pub record StatusSnapshot : Type 0 where
  pub cockpit_version : Text
  pub pid : ℤ
  pub session_count : ℕ
  pub anchor_count : ℕ
  pub compositor : CompositorState
  pub satellite_spawn_ok : ℕ
  pub satellite_spawn_fail : ℕ

pub record PaneSummary : Type 0 where
  pub pane_id : ℕ
  pub anchor_id : Option ℕ
  pub cwd : Option Text

pub record AnchorSummary : Type 0 where
  pub anchor_id : ℕ
  pub pane_id : Option ℕ
  pub label : Text
  pub active : Bool
  pub agent_status : List AgentPaneStatus
  pub pending_grants : ℕ
  pub active_grants : ℕ

pub record PaneNewResult : Type 0 where
  pub pane_id : ℕ
  pub anchor_id : ℕ
  pub placement : PanePlacement

pub data SatelliteState : Type 0 where
  docked detached floating_fallback : SatelliteState

pub data WindowCandidateBackend : Type 0 where
  macos kwin x11 hyprland sway noop unsupported : WindowCandidateBackend

pub data WindowAppIdentity : Type 0 where
  bundle_id desktop_entry wm_class app_id other : Text → WindowAppIdentity

pub record WindowCandidate : Type 0 where
  pub backend : WindowCandidateBackend
  pub backend_window_id : Text
  pub pid : Option ℕ
  pub app_identity : Option WindowAppIdentity
  pub title : Option Text
  pub workspace : Option Text
  pub output : Option Text

-- `ErrorPayload` of crates/lmux-bus/src/error.rs.
pub record ErrorPayload : Type 0 where
  pub code : ErrorCode
  pub message : Text
  pub kind_received : Option Text
  pub in_reply_to : Option ℕ

-- The fields of `PaneNew`.
pub record PaneNew : Type 0 where
  pub target_anchor : Option ℕ
  pub placement : PanePlacement
  pub activate : Bool
  pub title : Option Text
  pub argv : List Text
  pub agent : Option AgentIdentity
  pub purpose : Option Text

-- The fields of `SatelliteLaunchAttach`.
pub record LaunchAttach : Type 0 where
  pub argv : List Text
  pub title_hint : Option Text
  pub app_hint : Option Text
  pub timeout_ms : Option ℕ
  pub agent : Option AgentIdentity

-- The fields of a variant, in the source's order where no record holds them.
pub data Kind : Type 0 where
  hello : ClientRole → ℤ → Kind
  hello_ack : Text → Kind
  subscribe : List Text → Kind
  unsubscribe : ℕ → Kind
  error : ErrorPayload → Kind
  success : Option Text → Kind
  status_get : Kind
  status_get_result : StatusSnapshot → Kind
  session_list : Kind
  session_list_result : List SessionSummary → Kind
  session_new : Text → Kind
  session_rename : Text → Text → Kind
  session_delete : Text → Kind
  session_open : Text → Kind
  pane_list : Kind
  pane_list_result : List PaneSummary → Kind
  pane_new : PaneNew → Kind
  pane_new_result : PaneNewResult → Kind
  pane_tail : ℕ → ℕ → Option AgentIdentity → Kind
  pane_capture : ℕ → Option ℕ → Option ℕ → Option AgentIdentity → Kind
  pane_transcript_result : TranscriptRange → Kind
  pane_send_input : ℕ → Text → Option AgentIdentity → Kind
  pane_rename : ℕ → Text → Bool → Option AgentIdentity → Kind
  anchor_list : Kind
  anchor_list_result : List AnchorSummary → Kind
  anchor_tag : ℕ → Kind
  anchor_tag_self : Kind
  anchor_tag_self_result : ℕ → Kind
  anchor_new : Kind
  anchor_activate anchor_untag anchor_pause anchor_resume : ℕ → Kind
  anchor_hide anchor_reattach anchor_respawn : ℕ → Kind
  anchor_status : ℕ → AnchorState → Kind
  grant_request : GrantRequest → Kind
  grant_request_result : ℕ → Bool → Kind
  grant_decide : ℕ → GrantDecision → Kind
  satellite_open : List Text → ℕ → Bool → Kind
  satellite_detach satellite_reattach : ℕ → Kind
  satellite_attach_focused satellite_list_windows : Kind
  satellite_list_windows_result : List WindowCandidate → Kind
  satellite_attach_window : WindowCandidate → Option AgentIdentity → Kind
  satellite_launch_attach : LaunchAttach → Kind
  satellite_map : ℕ → CompositorWindowId → Kind
  satellite_geometry : CompositorWindowId → Rect → Kind
  satellite_status : ℕ → SatelliteState → Option Text → Kind
  compositor_status : CompositorState → Option Text → Kind
  compositor_reinject : Kind
