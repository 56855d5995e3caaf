-- ===== src/Gateway/Pipeline.antt =====
-- src/mcpgate/gateway.py: `Invocation`, `_subject_team`, `_session_id`, `invoke`.
pub mod Audited
pub mod Effects
pub mod Mediation
pub mod Isolation
pub mod Granted
pub mod Baseline
pub mod Probe
pub mod Session
pub mod Spared
pub mod Listing
use Prim.Native.String.{◌++◌ as text_append}
use mcpgate.Prelude.{ℕ, String, Option, none, some, ◌==◌, ◌||◌, lookup, if◌then◌else◌}
use mcpgate.Result.{Code, code_text, Wait, refused, fault, Result, ok, err, refuse}
use mcpgate.Value.{Value, Args}
use mcpgate.Policy
use mcpgate.Policy.{Policy, ToolPolicy, Permission, granted, denied}
use mcpgate.RateLimit.{Limiter, Buckets, Verdict, allowed, limited, one_token, allow}
use mcpgate.Store.{Ticket, Db}
use mcpgate.Store.Tickets.{get_ticket}
use mcpgate.Audit.{Entry, record_event}
use mcpgate.Auth.Types.{Provider, AuthResult}
use mcpgate.Auth.Access.{AccessToken, load_access_token}
use mcpgate.Gateway.Clean.{Clean}
use mcpgate.Gateway.Validate.{validate_inputs}
use mcpgate.Gateway.Dispatch.{Reply, dispatch}

pub record Invocation : Type 0 where
  pub tool : String
  pub args : Args
  pub token : String
  pub session_id : Option String

-- The `Gateway` object without what changes. `audit_key` is the key of its audit log.
pub record Gateway : Type 0 where
  pub policy : Policy
  pub provider : Provider
  pub limiter : Limiter
  pub audit_key : String

-- What a call changes: the store's database and the limiter's buckets.
pub record State : Type 0 where
  pub db : Db
  pub buckets : Buckets

-- What a call reads from outside: the clocks, in the order of their use, the rounded latency, and
-- `uuid.uuid4().hex`.
pub record Readings : Type 0 where
  pub decode_now : ℕ
  pub artifact_now : ℕ
  pub bucket_now : ℕ
  pub write_now : ℕ
  pub audit_now : ℕ
  pub latency_ms : ℕ
  pub fresh_id : String

-- `crashed` is an exception that `invoke` lets through: a KeyError of `load_access_token`.
pub data Outcome : Type 0 where
  returned : Reply → Outcome
  raised : Code → Option Wait → Outcome
  crashed : Outcome

team_of : Result (Option Ticket) → Option String
team_of (ok (some t)) = some t.team
team_of (ok none) = none
team_of (err e) = none

named_team : Option Value → Option String
named_team (some (Value.text team)) = some team
named_team _ = none

team_of_id : Option Value → Db → Option String
unfolding team_of
team_of_id (some (Value.integer id)) db = team_of (get_ticket id db)
team_of_id _ db = none

unfoldable pub subject_team : String → Args → Db → Option String
unfolding named_team team_of_id
subject_team tool args db =
    if tool == "create_ticket"
    then named_team (lookup "team" args)
    else if (tool == "get_ticket") || (tool == "update_ticket_status")
    then team_of_id (lookup "ticket_id" args) db
    else none

or_text : Option String → String → String
or_text none d = d
or_text (some s) d = s

session_of_token : Option AccessToken → String → String
unfolding or_text
session_of_token none fresh = text_append "unauth-" fresh
session_of_token (some access) fresh = or_text access.claims.jti fresh

-- `invocation.session_id or self._session_id(access)`
unfoldable pub session_id_of : Option String → Option AccessToken → String → String
unfolding session_of_token
session_id_of none access fresh = session_of_token access fresh
session_id_of (some s) access fresh = if s == "" then session_of_token access fresh else s

or_unknown : Option ToolPolicy → String
or_unknown none = "unknown"
or_unknown (some rule) = rule.action

-- The action that the policy names for a tool, "unknown" for one that it does not list.
unfoldable pub action_name : Policy → String → String
unfolding or_unknown
action_name p tool = or_unknown (lookup tool p.tools)

-- Scope, validation, dispatch, once the rate limit has let the call through.
dispatched : Invocation → AccessToken → Readings → Result Clean → Db → Result Reply × Db
dispatched i access r (ok clean) db = dispatch i.tool clean access r.write_now db
dispatched i access r (err e) db = (err e, db)

authorized : Invocation → AccessToken → Readings → Permission ToolPolicy → Db → Result Reply × Db
unfolding dispatched
authorized i access r (denied d) db = (refuse Code.forbidden, db)
authorized i access r (granted rule) db = dispatched i access r (validate_inputs i.tool i.args) db

admitted : Gateway → Invocation → AccessToken → Readings → Verdict → Db → Result Reply × Db
unfolding authorized
admitted g i access r (limited w) db = (err (refused Code.rate_limited (some w)), db)
admitted g i access r allowed db =
    authorized i access r (Policy.require_tool g.policy i.tool access.scopes) db

-- The body of the `try` in `invoke`.
unfoldable pub guarded :
    Gateway → Invocation → Option AccessToken → Readings → State → Result Reply × State
unfolding admitted
guarded g i none r s = (refuse Code.invalid_token, s)
guarded g i (some access) r s =
    let (verdict, buckets) = allow g.limiter access.client_id one_token r.bucket_now s.buckets in
    let (result, db) = admitted g i access r verdict s.db in
    (result, record { db = db; buckets = buckets })

-- What the caller gets, with the handlers of `invoke`: an unexpected exception becomes a
-- `GatewayError("internal_error")`.
abbrev pub outcome_of : Result Reply → Outcome
outcome_of (ok reply) = returned reply
outcome_of (err (refused code wait)) = raised code wait
outcome_of (err fault) = raised Code.internal_error none

abbrev pub decision_of : Result Reply → String
decision_of (ok reply) = "allow"
decision_of (err e) = "deny"

abbrev pub reason_of : Result Reply → String
reason_of (ok reply) = "policy_satisfied"
reason_of (err (refused code wait)) = code_text code
reason_of (err fault) = code_text Code.internal_error

abbrev client_of : Option AccessToken → Option String
client_of none = none
client_of (some access) = some access.client_id

-- The arguments of the one call of `audit.record`. The subject is read before the `try`.
abbrev pub entry_of :
    Gateway → Invocation → Option AccessToken → Readings → Option String → Result Reply → Entry
entry_of g i access r subject result = record {
  session_id = session_id_of i.session_id access r.fresh_id;
  client_id = client_of access;
  tool = i.tool;
  action = action_name g.policy i.tool;
  decision = decision_of result;
  reason = reason_of result;
  args = i.args;
  latency_ms = r.latency_ms;
  subject_team = subject;
}

finish :
    Gateway
    → Invocation
    → Option AccessToken
    → Readings
    → Option String
    → Result Reply × State
    → Outcome × State
finish g i access r subject (result, s) = (
  outcome_of result,
  record s {
    db =
        (record_event g.provider.crypto g.audit_key (entry_of g i access r subject result)
          r.audit_now s.db).1;
  },
)

authenticated :
    Gateway → Invocation → Readings → AuthResult (Option AccessToken) → State → Outcome × State
unfolding finish
authenticated g i r (AuthResult.err e) s = (crashed, s)
authenticated g i r (AuthResult.ok access) s =
    finish g i access r (subject_team i.tool i.args s.db) (guarded g i access r s)

unfoldable pub invoke : Gateway → Invocation → Readings → State → Outcome × State
unfolding authenticated
invoke g i r s =
    authenticated g i r (load_access_token g.provider i.token r.decode_now r.artifact_now s.db) s
