-- ===== src/Gateway/Pipeline/Audited.antt =====
-- Every call leaves one event, and the log stays chained.
use mcpgate.Prelude.{
  ℕ, ◌+◌, ◌≤◌, String, ◌==◌, if◌then◌else◌, ◌≡◌, refl, ap, true, Option, none, some, List, [], ◌∷◌,
  ◌++◌, length, length-append, arith,
}
use mcpgate.Result.{code_text, refused, fault, Result, ok, err}
use mcpgate.Policy.{ToolPolicy, Permission, granted, denied}
use mcpgate.RateLimit.{Verdict, allowed, limited}
use mcpgate.Store.{Event, Db}
use mcpgate.Store.Events.{append_audit, genesis, last_hash, last_audit_hash}
use mcpgate.Store.Tickets.Frame.{SameElsewhere, SameElsewhere-refl}
use mcpgate.Value.{loads, compact, object, of_args}
use mcpgate.Audit.{Step, step_of, safe_args, record_event, chain_limit, verify_chain}
use mcpgate.Audit.Chain.{IsChained, record_event-IsChained, verify_chain_iff}
use mcpgate.Auth.Types.{AuthResult}
use mcpgate.Auth.Access.{AccessToken, load_access_token}
use mcpgate.Gateway.Clean.{Clean}
use mcpgate.Gateway.Dispatch.{Reply}
use mcpgate.Gateway.Dispatch.Effects.{dispatch-SameElsewhere}
use mcpgate.Gateway.Pipeline.{
  Invocation, Gateway, State, Readings, Outcome, returned, raised, crashed, subject_team,
  action_name, session_id_of, dispatched, authorized, admitted, guarded, decision_of, reason_of,
  entry_of, finish, authenticated, invoke,
}

module _ (g : Gateway) (i : Invocation) (r : Readings) where
  dispatched-SameElsewhere :
      (access : AccessToken) (c : Result Clean) (db : Db)
      → SameElsewhere db (dispatched i access r c db).1
  unfolding dispatched
  dispatched-SameElsewhere access (ok clean) db =
      dispatch-SameElsewhere i.tool clean access r.write_now db
  dispatched-SameElsewhere access (err e) db = SameElsewhere-refl db

  authorized-SameElsewhere :
      (access : AccessToken) (p : Permission ToolPolicy) (db : Db)
      → SameElsewhere db (authorized i access r p db).1
  unfolding authorized
  authorized-SameElsewhere access (denied d) db = SameElsewhere-refl db
  authorized-SameElsewhere access (granted rule) db = dispatched-SameElsewhere access _ db

  admitted-SameElsewhere :
      (access : AccessToken) (v : Verdict) (db : Db)
      → SameElsewhere db (admitted g i access r v db).1
  unfolding admitted
  admitted-SameElsewhere access (limited w) db = SameElsewhere-refl db
  admitted-SameElsewhere access allowed db = authorized-SameElsewhere access _ db

  -- The body of the `try` writes to no table but the tickets'.
  pub guarded-SameElsewhere :
      (access : Option AccessToken) (s : State) → SameElsewhere s.db (guarded g i access r s).1.db
  unfolding guarded
  guarded-SameElsewhere none s = SameElsewhere-refl s.db
  guarded-SameElsewhere (some access) s = admitted-SameElsewhere access _ s.db

-- What `reconstruct` makes of the event of a call, with the given decision and reason.
abbrev pub step_for : Gateway → Invocation → State → String → String → Step
step_for g i s decision reason = record {
  sequence = s.db.last_sequence + 1;
  tool = i.tool;
  action = action_name g.policy i.tool;
  decision = decision;
  reason = reason;
  args = loads (compact (object (of_args (safe_args i.args))));
}

-- The session that a call names, or another one if it names none.
abbrev pub named_session : Option String → String → String
named_session none other = other
named_session (some session) other = if session == "" then other else session

-- The event that a call leaves at the end of the log: of the caller's tool and arguments' subject, with
-- the given decision and reason, next in the chain, in the session that the call names, if it names one.
abbrev pub Leaves : Gateway → Invocation → State → String → String → State → Type 0
Leaves g i s decision reason s' =
    (e : Event) × (s'.db.events ≡ s.db.events ++ e ∷ [])
    × (e.body.tool ≡ i.tool)
    × (e.body.decision ≡ decision)
    × (e.body.reason ≡ reason)
    × (e.body.subject_team ≡ subject_team i.tool i.args s.db)
    × (e.body.previous_hash ≡ last_audit_hash s.db)
    × (step_of e ≡ step_for g i s decision reason)
    × (e.body.session_id ≡ named_session i.session_id e.body.session_id)
    × (s'.db.last_sequence ≡ s.db.last_sequence + 1)

-- What the log holds after a call, by its outcome.
abbrev pub IsAudited : Gateway → Invocation → State → Outcome × State → Type 0
IsAudited g i s (returned reply, s') = Leaves g i s "allow" "policy_satisfied" s'
IsAudited g i s (raised code wait, s') = Leaves g i s "deny" (code_text code) s'
IsAudited g i s (crashed, s') = s' ≡ s

session_id_of-named :
    (o : Option String) (access : Option AccessToken) (fresh : String)
    → session_id_of o access fresh ≡ named_session o (session_id_of o access fresh)
unfolding session_id_of
session_id_of-named none access fresh = refl
session_id_of-named (some session) access fresh = ground arith

module _ (g : Gateway) (i : Invocation) (r : Readings) where
  finish-Leaves :
      (access : Option AccessToken) (s : State) (result : Result Reply) (s1 : State)
      → SameElsewhere s.db s1.db
      → Leaves g i s
          (decision_of result)
          (reason_of result)
          (finish g i access r (subject_team i.tool i.args s.db) (result, s1)).1
  unfolding finish record_event append_audit last_audit_hash
  finish-Leaves access s result s1 h =
      let e = entry_of g i access r (subject_team i.tool i.args s.db) result in
      let step_at : ℕ → Step =
        λ n. record (step_for g i s (decision_of result) (reason_of result)) { sequence = n + 1 } in
      let new = (record_event g.provider.crypto g.audit_key e r.audit_now s1.db).0 in
      (
        new,
        ap (λ (l : List Event). l ++ new ∷ []) h.events,
        refl,
        refl,
        refl,
        refl,
        ap (last_hash genesis) h.events,
        ap (λ n. step_at n) h.last_sequence,
        session_id_of-named i.session_id access r.fresh_id,
        ap (λ n. n + 1) h.last_sequence,
      )

  finish-IsAudited :
      (access : Option AccessToken) (s : State) (result : Result Reply) (s1 : State)
      → SameElsewhere s.db s1.db
      → IsAudited g i s (finish g i access r (subject_team i.tool i.args s.db) (result, s1))
  unfolding finish
  finish-IsAudited access s (ok reply) s1 h = finish-Leaves access s (ok reply) s1 h
  finish-IsAudited access s (err (refused code wait)) s1 h =
      finish-Leaves access s (err (refused code wait)) s1 h
  finish-IsAudited access s (err fault) s1 h = finish-Leaves access s (err fault) s1 h

  -- A call adds exactly one event to the log, at its end and chained to the event before it, whatever
  -- its outcome: "allow" with "policy_satisfied" if it returns, "deny" with the code of the error if it
  -- raises a `GatewayError`, an unexpected fault among them. The event names the tool and the team whose
  -- data the arguments concern. Only a KeyError of `load_access_token` escapes; then nothing changes.
  pub invoke-IsAudited : (s : State) → IsAudited g i s (invoke g i r s)
  unfolding invoke authenticated
  invoke-IsAudited s = go (load_access_token g.provider i.token r.decode_now r.artifact_now s.db)
    where
      go : (a : AuthResult (Option AccessToken)) → IsAudited g i s (authenticated g i r a s)
      go (AuthResult.err e) = refl
      go (AuthResult.ok access) =
          finish-IsAudited access s (guarded g i access r s).0 (guarded g i access r s).1
            (guarded-SameElsewhere g i r access s)

  -- A call keeps the log chained.
  pub invoke-IsChained :
      (s : State)
      → IsChained g.provider.crypto g.audit_key genesis s.db.events
      → IsChained g.provider.crypto g.audit_key genesis (invoke g i r s).1.db.events
  unfolding invoke authenticated finish
  invoke-IsChained s h = go (load_access_token g.provider i.token r.decode_now r.artifact_now s.db)
    where
      go :
          (a : AuthResult (Option AccessToken))
          → IsChained g.provider.crypto g.audit_key genesis (authenticated g i r a s).1.db.events
      go (AuthResult.err e) = h
      go (AuthResult.ok access) =
          record_event-IsChained g.provider.crypto g.audit_key _ r.audit_now
            (guarded g i access r s).1.db (rw (guarded-SameElsewhere g i r access s).events h)

-- Calls in the order in which they take their turns.
unfoldable pub serve : Gateway → List (Invocation × Readings) → State → State
serve g [] s = s
serve g ((i, r) ∷ calls) s = serve g calls (invoke g i r s).1

IsAudited-length :
    (g : Gateway) (i : Invocation) (s : State) (o : Outcome) (s' : State)
    → IsAudited g i s (o, s')
    → length s'.db.events ≤ length s.db.events + 1
IsAudited-length g i s (returned reply) s' h =
    omega (arith, ap length h.1, length-append s.db.events (h.0 ∷ []))
IsAudited-length g i s (raised code wait) s' h =
    omega (arith, ap length h.1, length-append s.db.events (h.0 ∷ []))
IsAudited-length g i s crashed s' h = rw h (omega arith)

serve-IsChained :
    (g : Gateway) (calls : List (Invocation × Readings)) (s : State)
    → IsChained g.provider.crypto g.audit_key genesis s.db.events
    → IsChained g.provider.crypto g.audit_key genesis (serve g calls s).db.events
unfolding serve
serve-IsChained g [] s h = h
serve-IsChained g ((i, r) ∷ calls) s h =
    serve-IsChained g calls (invoke g i r s).1 (invoke-IsChained g i r s h)

pub serve-length :
    (g : Gateway) (calls : List (Invocation × Readings)) (s : State)
    → length (serve g calls s).db.events ≤ length s.db.events + length calls
unfolding serve
serve-length g [] s = omega arith
serve-length g ((i, r) ∷ calls) s = omega (
  arith,
  serve-length g calls (invoke g i r s).1,
  IsAudited-length g i s (invoke g i r s).0 (invoke g i r s).1 (invoke-IsAudited g i r s),
)

-- From a log that verifies, any sequence of calls, of any callers and with any outcomes, leaves a log
-- that verifies, as long as the log has at most a million events in the end.
pub serve_verifies :
    (g : Gateway) (calls : List (Invocation × Readings)) (s : State)
    → length s.db.events + length calls ≤ chain_limit
    → verify_chain g.provider.crypto g.audit_key s.db ≡ true
    → verify_chain g.provider.crypto g.audit_key (serve g calls s).db ≡ true
serve_verifies g calls s fits h =
    (verify_chain_iff g.provider.crypto g.audit_key (serve g calls s).db
        (omega (arith, serve-length g calls s))).1
      (serve-IsChained g calls s
        ((verify_chain_iff g.provider.crypto g.audit_key s.db (omega arith)).0 h))
