-- ===== src/Gateway/Pipeline/Effects.antt =====
-- What a call may change and show, by what the guards decided.
use mcpgate.Prelude.{◌≡◌, refl, ap, Option, none, some}
use mcpgate.Result.{Code, Wait, Failure, refused, fault, Result, ok, err}
use mcpgate.Policy.{ToolPolicy, Permission, granted, denied}
use mcpgate.RateLimit.{Verdict, allowed, limited}
use mcpgate.Store.{Db}
use mcpgate.Store.Events.{append_audit}
use mcpgate.Audit.{record_event}
use mcpgate.Auth.Types.{AuthResult}
use mcpgate.Auth.Access.{AccessToken, load_access_token}
use mcpgate.Gateway.Clean.{Clean}
use mcpgate.Gateway.Validate.{validate_inputs}
use mcpgate.Gateway.Dispatch.{Reply}
use mcpgate.Gateway.Dispatch.Effects.{dispatch_failed}
use mcpgate.Gateway.Pipeline.{
  Invocation, Gateway, State, Readings, returned, raised, dispatched, authorized, admitted, guarded,
  outcome_of, finish, authenticated, invoke,
}

module _ (g : Gateway) (i : Invocation) (r : Readings) (access : AccessToken) where
  dispatched_failed :
      (c : Result Clean) (db : Db) (e : Failure)
      → (dispatched i access r c db).0 ≡ err e
      → (dispatched i access r c db).1 ≡ db
  unfolding dispatched
  dispatched_failed (ok clean) db e h = dispatch_failed i.tool clean access r.write_now db e h
  dispatched_failed (err x) db e h = refl

  authorized_failed :
      (p : Permission ToolPolicy) (db : Db) (e : Failure)
      → (authorized i access r p db).0 ≡ err e
      → (authorized i access r p db).1 ≡ db
  unfolding authorized
  authorized_failed (denied d) db e h = refl
  authorized_failed (granted rule) db e h = dispatched_failed (validate_inputs i.tool i.args) db e h

  admitted_failed :
      (v : Verdict) (db : Db) (e : Failure)
      → (admitted g i access r v db).0 ≡ err e
      → (admitted g i access r v db).1 ≡ db
  unfolding admitted
  admitted_failed (limited w) db e h = refl
  admitted_failed allowed db e h = authorized_failed _ db e h

guarded_failed :
    (g : Gateway) (i : Invocation) (r : Readings) (access : Option AccessToken) (s : State)
    (e : Failure)
    → (guarded g i access r s).0 ≡ err e
    → (guarded g i access r s).1.db ≡ s.db
unfolding guarded
guarded_failed g i r none s e h = refl
guarded_failed g i r (some access) s e h = admitted_failed g i r access _ s.db e h

pub outcome-raised :
    (result : Result Reply) (code : Code) (wait : Option Wait)
    → outcome_of result ≡ raised code wait
    → (e : Failure) × (result ≡ err e)
outcome-raised (ok reply) code wait h = cc
outcome-raised (err (refused c w)) code wait h = (refused c w, refl)
outcome-raised (err fault) code wait h = (fault, refl)

pub outcome-returned :
    (result : Result Reply) (reply : Reply) → outcome_of result ≡ returned reply → result ≡ ok reply
outcome-returned (ok x) reply h = cc
outcome-returned (err (refused c w)) reply h = cc
outcome-returned (err fault) reply h = cc

module _ (g : Gateway) (i : Invocation) (r : Readings) (s : State) where
  -- A call that raises has changed no ticket and no OAuth artifact: what it leaves behind is the audit
  -- event and the state of the rate limiter.
  pub invoke_raised :
      (code : Code) (wait : Option Wait)
      → (invoke g i r s).0 ≡ raised code wait
      → ((invoke g i r s).1.db.tickets ≡ s.db.tickets)
        × ((invoke g i r s).1.db.last_ticket_id ≡ s.db.last_ticket_id)
        × ((invoke g i r s).1.db.artifacts ≡ s.db.artifacts)
  unfolding invoke authenticated finish record_event append_audit
  invoke_raised code wait h =
      go (load_access_token g.provider i.token r.decode_now r.artifact_now s.db) h
    where
      go :
          (a : AuthResult (Option AccessToken))
          → (authenticated g i r a s).0 ≡ raised code wait
          → ((authenticated g i r a s).1.db.tickets ≡ s.db.tickets)
            × ((authenticated g i r a s).1.db.last_ticket_id ≡ s.db.last_ticket_id)
            × ((authenticated g i r a s).1.db.artifacts ≡ s.db.artifacts)
      go (AuthResult.err e) k = cc
      go (AuthResult.ok access) k =
          let (e, failed) = outcome-raised (guarded g i access r s).0 code wait k in
          let same = guarded_failed g i r access s e failed in
          (
            ap (λ (d : Db). d.tickets) same,
            ap (λ (d : Db). d.last_ticket_id) same,
            ap (λ (d : Db). d.artifacts) same,
          )
