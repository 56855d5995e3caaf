-- ===== src/Gateway/Pipeline/Granted.antt =====
-- A call that every guard lets through returns what dispatch replies.
use mcpgate.Prelude.{◌≡◌, refl, ap, ◌∙◌, some}
use mcpgate.Result.{Result, ok}
use mcpgate.Policy
use mcpgate.Policy.{ToolPolicy, Permission, granted}
use mcpgate.RateLimit.{Verdict, allowed, one_token, allow}
use mcpgate.Store.{Db}
use mcpgate.Store.Events.{append_audit}
use mcpgate.Audit.{record_event}
use mcpgate.Auth.Types.{AuthResult}
use mcpgate.Auth.Access.{AccessToken, load_access_token}
use mcpgate.Gateway.Clean.{Clean}
use mcpgate.Gateway.Validate.{validate_inputs}
use mcpgate.Gateway.Dispatch.{Reply, dispatch}
use mcpgate.Gateway.Pipeline.{
  Invocation, Gateway, State, Readings, returned, dispatched, authorized, admitted, guarded,
  outcome_of, finish, authenticated, invoke,
}

module _ (g : Gateway) (i : Invocation) (r : Readings) (access : AccessToken) where
  admitted-granted :
      (v : Verdict) (rule : ToolPolicy) (clean : Clean) (db : Db)
      → v ≡ allowed
      → Policy.require_tool g.policy i.tool access.scopes ≡ granted rule
      → validate_inputs i.tool i.args ≡ ok clean
      → admitted g i access r v db ≡ dispatch i.tool clean access r.write_now db
  unfolding admitted authorized dispatched
  admitted-granted v rule clean db a b c = rw (a, b, c) refl

  -- The guards refuse nothing else: a call with a live access token, whose identity's bucket has a token
  -- left, whose tool the policy grants to the token's scopes and whose arguments pass validation, and to
  -- which dispatch replies, returns that reply and leaves the tickets as dispatch does.
  pub invoke_granted :
      (s : State) (rule : ToolPolicy) (clean : Clean) (reply : Reply)
      → load_access_token g.provider i.token r.decode_now r.artifact_now s.db
        ≡ AuthResult.ok (some access)
      → (allow g.limiter access.client_id one_token r.bucket_now s.buckets).0 ≡ allowed
      → Policy.require_tool g.policy i.tool access.scopes ≡ granted rule
      → validate_inputs i.tool i.args ≡ ok clean
      → (dispatch i.tool clean access r.write_now s.db).0 ≡ ok reply
      → ((invoke g i r s).0 ≡ returned reply)
        × ((invoke g i r s).1.db.tickets
            ≡ (dispatch i.tool clean access r.write_now s.db).1.tickets)
  unfolding invoke authenticated finish guarded record_event append_audit
  invoke_granted s rule clean reply live a b c answer =
      let same =
        admitted-granted (allow g.limiter access.client_id one_token r.bucket_now s.buckets).0 rule
          clean s.db a b c in
      rw live (
        ap (λ (o : Result Reply × Db). outcome_of o.0) same ∙ ap outcome_of answer,
        ap (λ (o : Result Reply × Db). o.1.tickets) same,
      )
