-- ===== src/Demo/Passes.antt =====
-- Which of its checks the demo passes whatever the keys, the clocks and the random draws are.
use mcpgate.Prelude.{
  ℕ, String, ◌≡◌, refl, sym, ap, ◌∙◌, subst, true, false, Option, none, some, List, ◌++◌, pos, ◌==◌,
  length, arith,
}
use mcpgate.Result.{ok}
use mcpgate.Crypto.{Crypto}
use mcpgate.Policy.{Policy}
use mcpgate.RateLimit.{new_limiter}
use mcpgate.Store.{Ticket, Db, new_db}
use mcpgate.Store.Tickets.{get_ticket}
use mcpgate.Audit.{reconstruct}
use mcpgate.Audit.Chain.{verify_chain-empty}
use mcpgate.Auth.Types.{Settings, AuthResult}
use mcpgate.Auth.Issue.{Draw, OauthToken}
use mcpgate.Auth.Issue.Keeps.{issue_for_client-SameTables}
use mcpgate.Gateway.Pipeline.{Invocation, Gateway, State, Readings}
use mcpgate.Gateway.Pipeline.Audited.{serve, serve_verifies}
use mcpgate.Gateway.Pipeline.Session.{steps_in, transcript, reconstruct-steps, reconstruct-serve}
use mcpgate.Runtime.{create_runtime}
use mcpgate.Runtime.Runs.{built}
use mcpgate.Demo.{
  session, attempts, paired, run_attempts, Checks, checks_of, looked_at, checked, run_session,
  issue_operator, issue_readonly, second_issued, first_issued, in_runtime, demo,
}
use mcpgate.Demo.Evidence.{
  AllOfSession, AllOfSession-AllNamed, run_attempts-serve, length-transcript, transcript_hidden,
}
use mcpgate.Demo.Ready.{
  NoUpdates, signing_key, IsReady, seed-IsReady, IsReady-kept, get_ticket-serve, paired-All,
  length-paired, attempts_named, attempts_tools,
}

-- The checks that do not hang on what the tokens may do.
pub record Passes (c : Checks) : Type 0 where
  pub on_record : c.on_record ≡ true
  pub redacted : c.redacted ≡ true
  pub intact : c.intact ≡ true
  pub untouched : c.untouched ≡ true

not_empty : (session == "") ≡ false
unfolding ◌==◌
not_empty = refl

module _ (g : Gateway) (calls : List (Invocation × Readings)) (s : State) (now : ℕ)
    (ready : IsReady now s.db) (ours : AllOfSession calls) (few : length calls ≡ 5) where
  rebuilt : reconstruct session (serve g calls s).db ≡ transcript g session calls s
  rebuilt =
      reconstruct-serve g session calls s not_empty (AllOfSession-AllNamed calls ours)
        (omega (arith, few, ap length ready.events))
      ∙ ap (λ l. l ++ transcript g session calls s)
          (reconstruct-steps session s.db not_empty (omega (arith, ap length ready.events))
            ∙ ap (steps_in session) ready.events)

  checks_of-Passes :
      (t : Ticket)
      → (t.status == "planned") ≡ true
      → length (transcript g session calls s) ≡ 5
      → Passes (checks_of g 5 (serve g calls s) t)
  unfolding checks_of
  checks_of-Passes t planned five = record {
    on_record = rw (rebuilt, five) refl;
    redacted = rw rebuilt (transcript_hidden g calls s);
    intact =
        serve_verifies g calls s (omega (arith, few, ap length ready.events))
          (verify_chain-empty g.provider.crypto g.audit_key s.db ready.events);
    untouched = planned;
  }

is_planned : ("planned" == "planned") ≡ true
unfolding ◌==◌
is_planned = refl

some-injective : {a b : Checks} → some a ≡ some b → a ≡ b
some-injective h = cc

-- A session on a database without events passes those checks.
run_session-Passes :
    (g : Gateway) (s : State) (readings : List Readings) (operator readonly : String) (now : ℕ)
    (c : Checks)
    → IsReady now s.db
    → length readings ≡ 5
    → run_session g s readings operator readonly ≡ some c
    → Passes c
unfolding run_session checked looked_at
run_session-Passes g s readings operator readonly now c ready all_five h =
    go (run_attempts g calls s) refl h
  where
    calls : List (Invocation × Readings)
    calls = paired (attempts operator readonly) readings

    ours : AllOfSession calls
    ours = paired-All _ (attempts operator readonly) readings (attempts_named operator readonly)

    none_updates : NoUpdates calls
    none_updates =
        paired-All _ (attempts operator readonly) readings (attempts_tools operator readonly)

    few : length calls ≡ 5
    few = length-paired (attempts operator readonly) readings all_five

    seen :
        (s' : State)
        → run_attempts g calls s ≡ some s'
        → looked_at g 5 s' (get_ticket (pos 3) s'.db) ≡ some c
        → Passes c
    seen s' e k =
        let served = run_attempts-serve g calls s s' e in
        let found : get_ticket (pos 3) s'.db ≡ ok (some (signing_key now)) =
          ap (λ (x : State). get_ticket (pos 3) x.db) (sym served)
          ∙ (get_ticket-serve g calls s none_updates ready.given ∙ ready.ticket) in
        let shown : some (checks_of g 5 s' (signing_key now)) ≡ some c =
          subst (λ r. looked_at g 5 s' r ≡ some c) found k in
        subst Passes (some-injective shown) (
          subst (λ x. Passes (checks_of g 5 x (signing_key now))) served
            (checks_of-Passes g calls s now ready ours few (signing_key now) is_planned
              (length-transcript g calls s s' ours e ∙ few)))

    go : (o : Option State) → run_attempts g calls s ≡ o → checked g 5 o ≡ some c → Passes c
    go none e k = cc
    go (some s') e k = seen s' e k

module _ (c : Crypto) (p : Policy) (settings : Settings) (now : ℕ) (operator readonly : Draw)
    (readings : List Readings) (all_five : length readings ≡ 5) (checks : Checks) where
  second_issued-Passes :
      (g : Gateway) (s : State) (token : String) (r : AuthResult OauthToken) (db : Db)
      → IsReady now db
      → second_issued g readings s token (r, db) ≡ some checks
      → Passes checks
  unfolding second_issued
  second_issued-Passes g s token (AuthResult.err e) db ready h = cc
  second_issued-Passes g s token (AuthResult.ok other) db ready h =
      run_session-Passes g (record s { db = db }) readings token other.access_token now checks ready
        all_five h

  first_issued-Passes :
      (g : Gateway) (s : State) (r : AuthResult OauthToken) (db : Db)
      → IsReady now db
      → first_issued g readonly readings s (r, db) ≡ some checks
      → Passes checks
  unfolding first_issued
  first_issued-Passes g s (AuthResult.err e) db ready h = cc
  first_issued-Passes g s (AuthResult.ok token) db ready h =
      second_issued-Passes g s token.access_token (issue_readonly g readonly db).0
        (issue_readonly g readonly db).1
        (IsReady-kept now db (issue_readonly g readonly db).1
          (issue_for_client-SameTables g.provider "readonly-agent" readonly db
            "readonly-local-secret" none)
          ready)
        h

  in_runtime-Passes :
      (o : Option (Gateway × State))
      → create_runtime c p settings 4 10_000 now new_db ≡ o
      → in_runtime operator readonly readings o ≡ some checks
      → Passes checks
  unfolding in_runtime create_runtime
  in_runtime-Passes none e h = cc
  in_runtime-Passes (some (g, s)) e h =
      let (store, _, _) = built c p settings now g s (new_limiter 4 10_000) e in
      first_issued-Passes g s (issue_operator g operator s.db).0 (issue_operator g operator s.db).1
        (IsReady-kept now s.db (issue_operator g operator s.db).1
          (issue_for_client-SameTables g.provider "operator-agent" operator s.db
            "operator-local-secret" none)
          (subst (IsReady now) (sym store) (seed-IsReady now)))
        h

  -- The demo, where it ends without an exception, passes four of its checks whatever the policy, the
  -- keys, the clocks and the random draws are: every attempt is on the record, no body shows in the log,
  -- the hash chain is intact, and the security ticket is untouched.
  pub demo-Passes : demo c p settings now operator readonly readings ≡ some checks → Passes checks
  unfolding demo
  demo-Passes h = in_runtime-Passes (create_runtime c p settings 4 10_000 now new_db) refl h
