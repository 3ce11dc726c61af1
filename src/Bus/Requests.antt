-- ===== src/Bus/Requests.antt =====
-- What the bus handler refuses before a request reaches the application: crates/lmux/src/bus.rs.
use lmux.Prelude.{ℤ, Bool, true, false, ◌&&◌, is_none, if◌then◌else◌, Result, ok, err}
use lmux.Bus.Errors.{BusError}
use lmux.Bus.Catalog.{ClientRole, Kind}

pub record RequestContext : Type 0 where
  pub client : ClientRole
  pub pid : ℤ

-- What the texts of the errors say.
pub data Refusal : Type 0 where
  only_from_cockpit must_include_agent : Refusal

abbrev pub is_mcp : ClientRole → Bool
is_mcp ClientRole.lmux_mcp = true
is_mcp _ = false

unfoldable pub agent_sensitive_request_missing_identity : Kind → Bool
agent_sensitive_request_missing_identity (Kind.pane_new request) = is_none request.agent
agent_sensitive_request_missing_identity (Kind.pane_tail pane lines agent) = is_none agent
agent_sensitive_request_missing_identity (Kind.pane_capture pane since max agent) = is_none agent
agent_sensitive_request_missing_identity (Kind.pane_send_input pane text agent) = is_none agent
agent_sensitive_request_missing_identity (Kind.pane_rename pane title pin agent) = is_none agent
agent_sensitive_request_missing_identity (Kind.satellite_attach_window window agent) = is_none agent
agent_sensitive_request_missing_identity (Kind.satellite_launch_attach launch) =
    is_none launch.agent
agent_sensitive_request_missing_identity _ = false

abbrev pub is_grant_decide : Kind → Bool
is_grant_decide (Kind.grant_decide grant decision) = true
is_grant_decide _ = false

unfoldable pub authorize_public_request :
    RequestContext → Kind → Result (BusError Refusal) (Unit {0})
authorize_public_request ctx req =
    if is_grant_decide req
    then err (BusError.unauthorized only_from_cockpit)
    else if is_mcp ctx.client && agent_sensitive_request_missing_identity req
    then err (BusError.unauthorized must_include_agent)
    else ok tt
