-- ===== src/Server/Tools.antt =====
-- src/mcpgate/server.py: `invoke` inside `create_server`, and the five tools.
pub mod Agreement
use mcpgate.Prelude.{ℕ, String, Option, none, some, List, [], ◌∷◌, ◌++◌, ℤ, nat_eq, if◌then◌else◌}
use mcpgate.Result.{Code, Wait}
use mcpgate.Value.{Value, Args}
use mcpgate.Gateway.Dispatch.{Reply}
use mcpgate.Gateway.Pipeline.{
  Invocation, Gateway, State, Readings, Outcome, returned, raised, crashed, invoke,
}
use Prim.Native.String.{◌++◌ as text_append}

-- A call of one of the tools, with arguments of the types that the tool's function declares.
pub data ToolCall : Type 0 where
  list_tickets : Option String → ToolCall
  get_ticket : ℤ → ToolCall
  create_ticket : String → String → String → ToolCall
  update_ticket_status : ℤ → String → ToolCall
  audit_recent : ℤ → ToolCall

abbrev pub tool_name : ToolCall → String
tool_name (list_tickets status) = "list_tickets"
tool_name (get_ticket id) = "get_ticket"
tool_name (create_ticket team title body) = "create_ticket"
tool_name (update_ticket_status id status) = "update_ticket_status"
tool_name (audit_recent limit) = "audit_recent"

abbrev pub or_null : Option String → Value
or_null none = Value.null
or_null (some s) = Value.text s

-- The dict that the tool's function hands to `invoke`.
abbrev pub args_of_call : ToolCall → Args
args_of_call (list_tickets status) = ("status", or_null status) ∷ []
args_of_call (get_ticket id) = ("ticket_id", Value.integer id) ∷ []
args_of_call (create_ticket team title body) =
    ("team", Value.text team) ∷ ("title", Value.text title) ∷ ("body", Value.text body) ∷ []
args_of_call (update_ticket_status id status) =
    ("ticket_id", Value.integer id) ∷ ("status", Value.text status) ∷ []
args_of_call (audit_recent limit) = ("limit", Value.integer limit) ∷ []

-- What `get_access_token` gives of a request's token.
pub record Caller : Type 0 where
  pub token : String
  pub client_id : String

-- How a tool's function ends: by a reply, by an `AuditedToolError` with the code and the wait that its
-- message names, by any other exception.
pub data Handled : Type 0 where
  gave : Reply → Handled
  refusal : Code → Option Wait → Handled
  broke : Handled

-- `if exc.retry_after`: a wait of 0.0 is not named.
abbrev pub named_wait : Option Wait → Option Wait
named_wait none = none
named_wait (some w) = if nat_eq w.deficit 0 then none else some w

abbrev pub handled_of : Outcome × State → Handled × State
handled_of (returned reply, s) = (gave reply, s)
handled_of (raised code wait, s) = (refusal code (named_wait wait), s)
handled_of (crashed, s) = (broke, s)

abbrev pub mcp_session : String → String
mcp_session request_id = text_append "mcp-" request_id

abbrev pub invocation_of : Caller → String → ToolCall → Invocation
invocation_of caller request_id call = record {
  tool = tool_name call;
  args = args_of_call call;
  token = caller.token;
  session_id = some (mcp_session request_id);
}

-- `invoke`. Outside a request `ctx.request_id` raises a ValueError.
unfoldable pub handle :
    Gateway → Option Caller → Option String → ToolCall → Readings → State → Handled × State
handle g none request_id call r s = (refusal Code.invalid_token none, s)
handle g (some caller) none call r s = (broke, s)
handle g (some caller) (some request_id) call r s =
    handled_of (invoke g (invocation_of caller request_id call) r s)
