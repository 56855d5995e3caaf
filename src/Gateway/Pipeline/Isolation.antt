-- ===== src/Gateway/Pipeline/Isolation.antt =====
-- What a caller is told does not depend on the rows of other teams.
use mcpgate.Prelude.{◌≡◌, refl, ap, some}
use mcpgate.Result.{Result, ok, err}
use mcpgate.Policy
use mcpgate.Policy.{ToolPolicy, Permission, granted, denied}
use mcpgate.RateLimit.{Verdict, allowed, limited, one_token, allow}
use mcpgate.Store.{Db}
use mcpgate.Store.Narrowed.{narrowed}
use mcpgate.Store.Tickets.Rows.{IsKeyed}
use mcpgate.Auth.Types.{AuthResult}
use mcpgate.Auth.Access.{AccessToken, load_access_token}
use mcpgate.Auth.Access.Accepted.{load_access_token-same}
use mcpgate.Gateway.Clean.{Clean}
use mcpgate.Gateway.Validate.{validate_inputs}
use mcpgate.Gateway.Dispatch.{teams_of}
use mcpgate.Gateway.Dispatch.Narrowed.{dispatch-narrowed}
use mcpgate.Gateway.Pipeline.{
  Invocation, Gateway, State, Readings, dispatched, authorized, admitted, guarded, outcome_of,
  finish, authenticated, invoke,
}

-- The state without the rows of teams that the token does not name.
abbrev pub narrowed_state : AccessToken → State → State
narrowed_state access s = record s { db = narrowed (teams_of access) s.db }

module _ (g : Gateway) (i : Invocation) (r : Readings) (access : AccessToken) (db : Db)
    (keyed : IsKeyed db) where
  dispatched-narrowed :
      (c : Result Clean)
      → (dispatched i access r c (narrowed (teams_of access) db)).0 ≡ (dispatched i access r c db).0
  unfolding dispatched
  dispatched-narrowed (ok clean) =
      ap (λ o. o.0) (dispatch-narrowed i.tool clean access r.write_now db keyed)
  dispatched-narrowed (err e) = refl

  authorized-narrowed :
      (p : Permission ToolPolicy)
      → (authorized i access r p (narrowed (teams_of access) db)).0 ≡ (authorized i access r p db).0
  unfolding authorized
  authorized-narrowed (denied d) = refl
  authorized-narrowed (granted rule) = dispatched-narrowed (validate_inputs i.tool i.args)

  admitted-narrowed :
      (v : Verdict)
      → (admitted g i access r v (narrowed (teams_of access) db)).0 ≡ (admitted g i access r v db).0
  unfolding admitted
  admitted-narrowed (limited w) = refl
  admitted-narrowed allowed =
      authorized-narrowed (Policy.require_tool g.policy i.tool access.scopes)

-- A caller learns nothing from what a call answers about the rows of teams that its token does not name:
-- where the tickets' keys are in order, a call with a live token returns or raises exactly as it would
-- if the database held neither the tickets of other teams nor the events about them.
pub invoke-narrowed :
    (g : Gateway) (i : Invocation) (r : Readings) (access : AccessToken) (s : State)
    → IsKeyed s.db
    → load_access_token g.provider i.token r.decode_now r.artifact_now s.db
      ≡ AuthResult.ok (some access)
    → (invoke g i r (narrowed_state access s)).0 ≡ (invoke g i r s).0
unfolding invoke authenticated finish guarded
invoke-narrowed g i r access s keyed live =
    let same =
      load_access_token-same g.provider i.token r.decode_now r.artifact_now
        (narrowed (teams_of access) s.db) s.db refl in
    rw (same, live)
      (ap outcome_of (
        admitted-narrowed g i r access s.db keyed
          (allow g.limiter access.client_id one_token r.bucket_now s.buckets).0))
