-- ===== src/Server/Calls.antt =====
-- src/mcpgate/server.py: `audited_call_tool` and `_current_request_id`.
pub mod Once
pub mod Replied
pub mod Worked
use mcpgate.Prelude.{ℕ, String, Bool, true, false, Option, none, some, List, [], ◌∷◌}
use mcpgate.Value.{Args}
use mcpgate.Audit.{Entry, record_event}
use mcpgate.Gateway.Dispatch.{Reply}
use mcpgate.Gateway.Pipeline.{Gateway, State, Readings, action_name}
use mcpgate.Server.Errors.{Errors, already_audited}
use mcpgate.Server.Tools.{ToolCall, Caller, Handled, mcp_session, handle}

-- What the SDK does first with a call: it rejects it by an exception (the object's place among the
-- errors), for an unknown tool or arguments that do not fit; or it calls the tool's function.
pub data Plan : Type 0 where
  rejects : Errors → ℕ → Plan
  calls : ToolCall → Plan

-- How the SDK's `call_tool` ends.
pub data Answer : Type 0 where
  replied : Reply → Answer
  failed : Errors → ℕ → Answer

-- FastMCP's `call_tool`, around the tool's function.
pub record Sdk : Type 0 where
  pub plan : String → Option Args → Plan
  pub wrap : Handled → Answer

-- A request: `arguments` is None where it is no dict.
pub record Request : Type 0 where
  pub name : String
  pub arguments : Option Args
  pub caller : Option Caller
  pub request_id : Option String

abbrev pub current_request_id : Option String → String
current_request_id none = "unknown"
current_request_id (some id) = id

abbrev or_no_args : Option Args → Args
or_no_args none = []
or_no_args (some args) = args

abbrev client_of_caller : Option Caller → Option String
client_of_caller none = none
client_of_caller (some caller) = some caller.client_id

abbrev pub rejection_entry : Gateway → Request → Entry
rejection_entry g q = record {
  session_id = mcp_session (current_request_id q.request_id);
  client_id = client_of_caller q.caller;
  tool = q.name;
  action = action_name g.policy q.name;
  decision = "deny";
  reason = "rejected_before_dispatch";
  args = or_no_args q.arguments;
  latency_ms = 0;
  subject_team = none;
}

record_rejection : Gateway → Request → ℕ → State → State
record_rejection g q now s = record s {
  db = (record_event g.provider.crypto g.audit_key (rejection_entry g q) now s.db).1;
}

-- What the handler of an exception does, by the answer of `_already_audited`. That always answers.
settle : Gateway → Request → ℕ → Option Bool → State → State
settle g q now (some false) s = record_rejection g q now s
settle g q now _ s = s

planned : Sdk → Gateway → Request → Readings → Plan → State → Answer × State
planned sdk g q r (rejects errors i) s = (failed errors i, s)
planned sdk g q r (calls call) s =
    let (h, s') = handle g q.caller q.request_id call r s in (sdk.wrap h, s')

audited : Gateway → Request → ℕ → Answer × State → Answer × State
audited g q now (replied reply, s) = (replied reply, s)
audited g q now (failed errors i, s) =
    (failed errors i, settle g q now (already_audited errors i) s)

-- `now` is the time at which a rejection is recorded.
unfoldable pub audited_call_tool : Sdk → Gateway → Request → Readings → ℕ → State → Answer × State
unfolding audited planned settle record_rejection
audited_call_tool sdk g q r now s =
    audited g q now (planned sdk g q r (sdk.plan q.name q.arguments) s)
