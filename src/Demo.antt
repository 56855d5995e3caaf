-- ===== src/Demo.antt =====
-- demos/audit_reconstruction.py: a session of five calls, rebuilt from the audit trail, and its checks.
-- The printed lines are not modelled. The policy is the one that policy.yaml says.
pub mod Evidence
pub mod Ready
pub mod Passes
use mcpgate.Prelude.{
  ℕ, ◌+◌, String, Bool, true, false, ◌&&◌, ◌||◌, not, Option, none, some, List, [], ◌∷◌, pos,
  nat_eq, ◌==◌, length, select, if◌then◌else◌,
}
use mcpgate.Result.{Result, ok, err}
use mcpgate.Value.{Value, null, text, integer, object, Fields, end, field}
use mcpgate.Crypto.{Crypto}
use mcpgate.Policy.{Policy}
use mcpgate.Store.{Ticket, Event, Db, new_db}
use mcpgate.Store.Tickets.{get_ticket}
use mcpgate.Audit.{Step, reconstruct, verify_chain}
use mcpgate.Auth.Types.{Settings, AuthResult}
use mcpgate.Auth.Issue.{Draw, OauthToken, issue_for_client}
use mcpgate.Gateway.Pipeline.{
  Invocation, Gateway, State, Readings, Outcome, returned, raised, crashed, invoke,
}
use mcpgate.Runtime.{create_runtime}

-- `SESSION`
abbrev pub session : String
session = "incident-4417"

abbrev pub attempt : String → String → List (String × Value) → Invocation
attempt token tool args = record {
  tool = tool;
  args = args;
  token = token;
  session_id = some session;
}

abbrev pub attempts : String → String → List Invocation
attempts operator readonly =
    attempt operator "list_tickets" (("status", text "open") ∷ [])
    ∷ attempt operator "create_ticket" (
        ("team", text "alpha")
        ∷ ("title", text "Payment retries spike")
        ∷ ("body", text "Customer PII and card details go here.")
        ∷ [])
    ∷ attempt readonly "create_ticket"
        (("team", text "alpha") ∷ ("title", text "x") ∷ ("body", text "y") ∷ [])
    ∷ attempt operator "get_ticket" (("ticket_id", integer (pos 3)) ∷ [])
    ∷ attempt "not-a-real-token" "list_tickets" (("status", null) ∷ [])
    ∷ []

-- The loop over the attempts: `except GatewayError` goes on, another exception ends the program.
pub unless_crashed : Outcome → Option State → Option State
unless_crashed crashed rest = none
unless_crashed (returned reply) rest = rest
unless_crashed (raised code wait) rest = rest

unfoldable pub run_attempts : Gateway → List (Invocation × Readings) → State → Option State
unfolding unless_crashed
run_attempts g [] s = some s
run_attempts g ((i, r) ∷ calls) s =
    let (outcome, s') = invoke g i r s in unless_crashed outcome (run_attempts g calls s')

-- `event["args"].get("body")`
body_in : Fields → Option Value
body_in end = none
body_in (field k v fields) = if k == "body" then some v else body_in fields

body_of_args : Value → Option Value
unfolding body_in
body_of_args (object fields) = body_in fields
body_of_args _ = none

-- `in (None, "[REDACTED]")`
hidden : Option Value → Bool
hidden none = true
hidden (some null) = true
hidden (some (text s)) = s == "[REDACTED]"
hidden (some _) = false

unfoldable pub all_hidden : List Step → Bool
unfolding body_of_args hidden
all_hidden [] = true
all_hidden (step ∷ steps) = hidden (body_of_args step.args) && all_hidden steps

-- The edit of the oldest event with the decision "deny".
abbrev is_denial : Event → Bool
is_denial e = e.body.decision == "deny"

allow_first : List Event → List Event
allow_first [] = []
allow_first (e ∷ events) =
    if is_denial e
    then record e { body = record e.body { decision = "allow" } } ∷ events
    else e ∷ allow_first events

count : String → List Step → ℕ
count decision steps = length (select (λ step. step.decision == decision) steps)

-- What the demo checks, in its order.
pub record Checks : Type 0 where
  pub on_record : Bool
  pub counted : Bool
  pub redacted : Bool
  pub intact : Bool
  pub untouched : Bool
  pub detected : Bool

unfoldable pub checks_of : Gateway → ℕ → State → Ticket → Checks
unfolding allow_first count
checks_of g n s t = record {
  on_record = nat_eq (length (reconstruct session s.db)) n;
  counted =
      nat_eq (count "allow" (reconstruct session s.db)) 2
      && nat_eq (count "deny" (reconstruct session s.db)) 3;
  redacted = all_hidden (reconstruct session s.db);
  intact = verify_chain g.provider.crypto g.audit_key s.db;
  untouched = t.status == "planned";
  detected = not (
      verify_chain g.provider.crypto g.audit_key
        (record s.db { events = allow_first s.db.events }));
}

-- Each attempt with what it reads; the readings are as many.
abbrev pub paired : List Invocation → List Readings → List (Invocation × Readings)
paired (i ∷ calls) (r ∷ readings) = (i, r) ∷ paired calls readings
paired _ _ = []

-- `get_ticket(3)["status"]` of None is a TypeError.
looked_at : Gateway → ℕ → State → Result (Option Ticket) → Option Checks
looked_at g n s (ok (some t)) = some (checks_of g n s t)
looked_at g n s _ = none

checked : Gateway → ℕ → Option State → Option Checks
unfolding looked_at
checked g n none = none
checked g n (some s) = looked_at g n s (get_ticket (pos 3) s.db)

unfoldable pub run_session : Gateway → State → List Readings → String → String → Option Checks
unfolding checked
run_session g s readings operator readonly =
    checked g (length (attempts operator readonly))
      (run_attempts g (paired (attempts operator readonly) readings) s)

-- The demo's two tokens.
abbrev pub issue_operator : Gateway → Draw → Db → AuthResult OauthToken × Db
issue_operator g d db =
    issue_for_client g.provider "operator-agent" "operator-local-secret" none d db

abbrev pub issue_readonly : Gateway → Draw → Db → AuthResult OauthToken × Db
issue_readonly g d db =
    issue_for_client g.provider "readonly-agent" "readonly-local-secret" none d db

second_issued :
    Gateway → List Readings → State → String → AuthResult OauthToken × Db → Option Checks
second_issued g readings s operator (AuthResult.err e, db) = none
second_issued g readings s operator (AuthResult.ok token, db) =
    run_session g (record s { db = db }) readings operator token.access_token

first_issued : Gateway → Draw → List Readings → State → AuthResult OauthToken × Db → Option Checks
unfolding second_issued
first_issued g readonly readings s (AuthResult.err e, db) = none
first_issued g readonly readings s (AuthResult.ok token, db) =
    second_issued g readings s token.access_token (issue_readonly g readonly db)

in_runtime : Draw → Draw → List Readings → Option (Gateway × State) → Option Checks
unfolding first_issued
in_runtime operator readonly readings none = none
in_runtime operator readonly readings (some (g, s)) =
    first_issued g readonly readings s (issue_operator g operator s.db)

-- The body of `main`: `none` is an exception. The refill is 10,000 millionths of a token a second.
unfoldable pub demo : Crypto → Policy → Settings → ℕ → Draw → Draw → List Readings → Option Checks
unfolding in_runtime
demo c p settings now operator readonly readings =
    in_runtime operator readonly readings (create_runtime c p settings 4 10_000 now new_db)
