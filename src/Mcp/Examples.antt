-- ===== src/Mcp/Examples.antt =====
-- Tests of the MCP server, and the theorems at concrete requests.
use lmux.Prelude.{
  ℕ, pos, none, some, List, [], ◌∷◌, ◌++◌, ◌==◌, nat_eq, Text, Result, ok, err, ◌≡◌, ◌≢◌, refl,
  arith,
}
use lmux.Bus.Catalog.{ClientRole, Kind}
use lmux.Bus.Requests.{
  RequestContext, Refusal, authorize_public_request, agent_sensitive_request_missing_identity,
}
use lmux.Bus.Errors.{BusError}
use lmux.Mcp.{Serde, ToolName, kind_for_tool, agent_from_env}
use lmux.Mcp.Tools.{kind_for_tool-authorized}
use lmux.Mcp.Stdio.{
  IntError, StdioError, Json, to_decimal, digits, parse_usize, parse_digits, read_message,
  write_message,
}
use lmux.Mcp.Framing.{KeepsAscii, read-write_message}
use lmux.Mcp.Ends.{read_message-ends}

-- Values that are numbers: the arguments of `pane_tail` are the pane.
abbrev numbers : Serde ℕ
numbers = record {
  pane_new = λ v. err [];
  pane_tail = λ v. ok (record { pane_id = v; lines = none });
  pane_capture = λ v. err [];
  pane_send = λ v. err [];
  pane_rename = λ v. err [];
  attach_window = λ v. err [];
  launch = λ v. err [];
  parse_uuid = λ v. err [];
}

abbrev from_mcp : RequestContext
from_mcp = record { client = ClientRole.lmux_mcp; pid = pos 7 }

abbrev tail_of_3 : Kind
tail_of_3 = Kind.pane_tail 3 80 (agent_from_env none none)

without_agent :
    authorize_public_request from_mcp (Kind.pane_tail 3 80 none)
    ≡ err (BusError.unauthorized Refusal.must_include_agent)
unfolding authorize_public_request agent_sensitive_request_missing_identity
without_agent = refl

kind_for_tool-authorized_example : authorize_public_request from_mcp tail_of_3 ≡ ok tt
unfolding kind_for_tool
kind_for_tool-authorized_example =
    kind_for_tool-authorized numbers from_mcp none none ToolName.pane_tail 3 tail_of_3 refl

-- The text of a number is its byte, and 0 is null.
abbrev byte_of : List ℕ → Result Text ℕ
byte_of (b ∷ []) = ok b
byte_of _ = err []

abbrev bytes : Json ℕ
bytes = record {
  is_null = λ v. v == 0;
  to_vec = λ v. ok (v ∷ []);
  from_slice = byte_of;
  from_utf8 = λ xs. some xs;
}

bytes-KeepsAscii : KeepsAscii bytes.from_utf8
bytes-KeepsAscii xs h = refl

reads_a_number : parse_usize (to_decimal 4096) ≡ ok 4096
unfolding parse_usize parse_digits to_decimal digits
reads_a_number = refl

refuses_letters : parse_usize (b'1' ∷ b'x' ∷ []) ≡ err IntError.invalid_digit
unfolding parse_usize parse_digits
refuses_letters = refl

read-write_message_example :
    (written : List ℕ) × (write_message bytes [] 5 ≡ ok written)
    × (read_message bytes (written ++ 9 ∷ []) ≡ ok (some 5, 9 ∷ []))
read-write_message_example =
    read-write_message bytes 5 (5 ∷ []) (9 ∷ []) refl refl refl (omega arith) bytes-KeepsAscii

read_message-ends_example : read_message bytes (b'C' ∷ b'\n' ∷ []) ≢ err StdioError.out_of_fuel
read_message-ends_example = read_message-ends bytes (b'C' ∷ b'\n' ∷ [])
