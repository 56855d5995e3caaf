-- ===== src/Gateway/Pipeline/Mediation.antt =====
-- No tool runs but through every guard, and none reaches another team's rows.
use mcpgate.Prelude.{String, ◌≡◌, refl, ap, ◌∙◌, subst, false, Option, none, some, contains}
use mcpgate.Result.{Result, ok, err}
use mcpgate.Policy
use mcpgate.Policy.{ToolPolicy, Permission, granted, denied}
use mcpgate.RateLimit.{Verdict, allowed, limited, one_token, allow}
use mcpgate.Store.{Db}
use mcpgate.Store.Events.{append_audit}
use mcpgate.Store.Tickets.Rows.{IsKeyed}
use mcpgate.Store.Tickets.Updates.{team_rows}
use mcpgate.Audit.{record_event}
use mcpgate.Auth.Types.{AuthResult}
use mcpgate.Auth.Access.{AccessToken, load_access_token}
use mcpgate.Gateway.Clean.{Clean}
use mcpgate.Gateway.Validate.{validate_inputs}
use mcpgate.Gateway.Dispatch.{Reply, teams_of, dispatch}
use mcpgate.Gateway.Dispatch.Effects.{dispatch-IsKeyed}
use mcpgate.Gateway.Dispatch.RowFilter.{dispatch_confined}
use mcpgate.Gateway.Dispatch.Shown.{Shows, ShowsResult, dispatch_shows}
use mcpgate.Gateway.Pipeline.{
  Invocation, Gateway, State, Readings, returned, dispatched, authorized, admitted, guarded, finish,
  authenticated, invoke,
}
use mcpgate.Gateway.Pipeline.Effects.{outcome-returned}

module _ (g : Gateway) (i : Invocation) (r : Readings) (access : AccessToken) where
  -- A property of the database that dispatch keeps is kept by the guards.
  dispatched_keeps :
      (P : Db → Type 0) (c : Result Clean) (db : Db)
      → P db
      → ((clean : Clean) → P (dispatch i.tool clean access r.write_now db).1)
      → P (dispatched i access r c db).1
  unfolding dispatched
  dispatched_keeps P (ok clean) db h k = k clean
  dispatched_keeps P (err e) db h k = h

  authorized_keeps :
      (P : Db → Type 0) (p : Permission ToolPolicy) (db : Db)
      → P db
      → ((clean : Clean) → P (dispatch i.tool clean access r.write_now db).1)
      → P (authorized i access r p db).1
  unfolding authorized
  authorized_keeps P (denied d) db h k = h
  authorized_keeps P (granted rule) db h k = dispatched_keeps P _ db h k

  admitted_keeps :
      (P : Db → Type 0) (v : Verdict) (db : Db)
      → P db
      → ((clean : Clean) → P (dispatch i.tool clean access r.write_now db).1)
      → P (admitted g i access r v db).1
  unfolding admitted
  admitted_keeps P (limited w) db h k = h
  admitted_keeps P allowed db h k = authorized_keeps P _ db h k

  -- What the guards said of a call that got through, with the reply that dispatch gave.
  abbrev pub Passed : Db → Reply → Type 0
  Passed db reply =
      (rule : ToolPolicy) × (Policy.require_tool g.policy i.tool access.scopes ≡ granted rule)
      × (clean : Clean) × (validate_inputs i.tool i.args ≡ ok clean)
      × ((dispatch i.tool clean access r.write_now db).0 ≡ ok reply)

  validated_ok :
      (rule : ToolPolicy) (db : Db) (reply : Reply)
      → Policy.require_tool g.policy i.tool access.scopes ≡ granted rule
      → (c : Result Clean) → validate_inputs i.tool i.args ≡ c
      → (dispatched i access r c db).0 ≡ ok reply
      → Passed db reply
  unfolding dispatched
  validated_ok rule db reply p (ok clean) e h = (rule, p, clean, e, h)
  validated_ok rule db reply p (err x) e h = cc

  authorized_ok :
      (db : Db) (reply : Reply) (p : Permission ToolPolicy)
      → Policy.require_tool g.policy i.tool access.scopes ≡ p
      → (authorized i access r p db).0 ≡ ok reply
      → Passed db reply
  unfolding authorized
  authorized_ok db reply (denied d) e h = cc
  authorized_ok db reply (granted rule) e h =
      validated_ok rule db reply e (validate_inputs i.tool i.args) refl h

  admitted_ok :
      (v : Verdict) (db : Db) (reply : Reply)
      → (admitted g i access r v db).0 ≡ ok reply
      → (v ≡ allowed) × Passed db reply
  unfolding admitted
  admitted_ok (limited w) db reply h = cc
  admitted_ok allowed db reply h = (refl, authorized_ok db reply _ refl h)

module _ (g : Gateway) (i : Invocation) (r : Readings) (s : State) where
  -- A call that returns, in a state where the tickets' keys are in order, has passed every guard: its
  -- token is a live access token, the identity's bucket had a token left, the policy grants the tool to
  -- the token's scopes, and its arguments passed validation. What it returns is what dispatch answers to
  -- the checked arguments, and shows only rows of the token's teams and events about them or no team.
  pub invoke_returned :
      (reply : Reply)
      → IsKeyed s.db
      → (invoke g i r s).0 ≡ returned reply
      → (access : AccessToken) × (load_access_token g.provider i.token r.decode_now r.artifact_now
            s.db
          ≡ AuthResult.ok (some access))
        × ((allow g.limiter access.client_id one_token r.bucket_now s.buckets).0 ≡ allowed)
        × Passed g i r access s.db reply
        × Shows (teams_of access) reply
  unfolding invoke authenticated finish guarded
  invoke_returned reply keyed h =
      go (load_access_token g.provider i.token r.decode_now r.artifact_now s.db) refl h
    where
      go :
          (a : AuthResult (Option AccessToken))
          → load_access_token g.provider i.token r.decode_now r.artifact_now s.db ≡ a
          → (authenticated g i r a s).0 ≡ returned reply
          → (access : AccessToken) × (load_access_token g.provider i.token r.decode_now
                r.artifact_now s.db
              ≡ AuthResult.ok (some access))
            × ((allow g.limiter access.client_id one_token r.bucket_now s.buckets).0 ≡ allowed)
            × Passed g i r access s.db reply
            × Shows (teams_of access) reply
      go (AuthResult.err e) p k = cc
      go (AuthResult.ok none) p k = cc
      go (AuthResult.ok (some access)) p k =
          let (verdict, passed) =
            admitted_ok g i r access _ s.db reply
              (outcome-returned (guarded g i (some access) r s).0 reply k) in
          (access, p, verdict, passed, shown access passed)
        where
          shown : (a : AccessToken) → Passed g i r a s.db reply → Shows (teams_of a) reply
          shown a (rule, p, clean, v, d) =
              subst (ShowsResult (teams_of a)) d
                (dispatch_shows i.tool clean a r.write_now s.db keyed)

  pub invoke_keeps :
      (P : Db → Type 0)
      → P s.db
      → ((access : AccessToken) (clean : Clean)
          → load_access_token g.provider i.token r.decode_now r.artifact_now s.db
            ≡ AuthResult.ok (some access)
          → P (dispatch i.tool clean access r.write_now s.db).1)
      → (d : Db) × P d
        × ((invoke g i r s).1.db.tickets ≡ d.tickets)
        × ((invoke g i r s).1.db.last_ticket_id ≡ d.last_ticket_id)
  unfolding invoke authenticated finish guarded record_event append_audit
  invoke_keeps P h k =
      go (load_access_token g.provider i.token r.decode_now r.artifact_now s.db) refl
    where
      go :
          (a : AuthResult (Option AccessToken))
          → load_access_token g.provider i.token r.decode_now r.artifact_now s.db ≡ a
          → (d : Db) × P d
            × ((authenticated g i r a s).1.db.tickets ≡ d.tickets)
            × ((authenticated g i r a s).1.db.last_ticket_id ≡ d.last_ticket_id)
      go (AuthResult.err e) p = (s.db, h, refl, refl)
      go (AuthResult.ok none) p = (s.db, h, refl, refl)
      go (AuthResult.ok (some access)) p = (
        (guarded g i (some access) r s).1.db,
        admitted_keeps g i r access P _ s.db h (λ clean. k access clean p),
        refl,
        refl,
      )

  -- A call keeps the keys of the tickets' table in order.
  pub invoke-IsKeyed : IsKeyed s.db → IsKeyed (invoke g i r s).1.db
  invoke-IsKeyed h =
      let (d, keyed, same, last) =
        invoke_keeps IsKeyed h
          (λ access clean p. dispatch-IsKeyed i.tool clean access r.write_now s.db h) in
      record { ascending = rw (same, last) keyed.ascending; bounded = rw last keyed.bounded }

  -- Where the tickets' keys are in order, a call leaves the tickets of a team exactly as they are unless
  -- its token is a live access token that names the team, whatever the tool, the arguments and the
  -- outcome.
  pub invoke_confined :
      (team : String)
      → IsKeyed s.db
      → ((access : AccessToken)
          → load_access_token g.provider i.token r.decode_now r.artifact_now s.db
            ≡ AuthResult.ok (some access)
          → contains (teams_of access) team ≡ false)
      → team_rows team (invoke g i r s).1.db.tickets ≡ team_rows team s.db.tickets
  invoke_confined team keyed foreign =
      let (d, kept, same, last) =
        invoke_keeps (λ d. team_rows team d.tickets ≡ team_rows team s.db.tickets) refl
          (λ access clean p.
            dispatch_confined i.tool clean access r.write_now s.db team keyed (foreign access p)) in
      ap (team_rows team) same ∙ kept
