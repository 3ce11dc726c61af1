-- ===== src/Mcp/Tools.antt =====
-- What the requests of the tools may do: crates/lmux-mcp/src/lib.rs through the check of
-- crates/lmux/src/bus.rs.
use lmux.Prelude.{Option, Text, ok, ◌≡◌, arith}
use lmux.Bus.Catalog.{Kind}
use lmux.Bus.Requests.{
  RequestContext, authorize_public_request, agent_sensitive_request_missing_identity,
}
use lmux.Mcp.{Serde, ToolName, kind_for_tool, agent_from_env}

module _ {V : Type 0} (serde : Serde V) where
  -- Whatever tool is called with whatever arguments, in whatever environment: if it becomes a request
  -- of the bus, the bus handler lets it through, from every client.
  pub kind_for_tool-authorized :
      (ctx : RequestContext) (id name : Option Text) (tool : ToolName) (args : V) (req : Kind)
      → kind_for_tool serde tool args (agent_from_env id name) ≡ ok req
      → authorize_public_request ctx req ≡ ok tt
  unfolding kind_for_tool agent_from_env authorize_public_request
      agent_sensitive_request_missing_identity
  kind_for_tool-authorized ctx id name ToolName.anchor_list args req h = ground arith
  kind_for_tool-authorized ctx id name ToolName.pane_new args req h = ground arith
  kind_for_tool-authorized ctx id name ToolName.pane_tail args req h = ground arith
  kind_for_tool-authorized ctx id name ToolName.pane_capture args req h = ground arith
  kind_for_tool-authorized ctx id name ToolName.pane_send args req h = ground arith
  kind_for_tool-authorized ctx id name ToolName.pane_rename args req h = ground arith
  kind_for_tool-authorized ctx id name ToolName.satellite_list_windows args req h = ground arith
  kind_for_tool-authorized ctx id name ToolName.satellite_attach_window args req h = ground arith
  kind_for_tool-authorized ctx id name ToolName.satellite_launch args req h = ground arith
  kind_for_tool-authorized ctx id name (ToolName.other unknown) args req h = cc
