-- ===== src/Tests/Guards.antt =====
-- The gateway's theorems at calls of the small deployment.
use mcpgate.Prelude.{
  ◌≡◌, refl, sym, ◌∙◌, subst, false, none, some, List, [], ◌∷◌, ◌==◌, pos, contains, arith,
}
use mcpgate.Result.{Code, ok}
use mcpgate.Policy.{require_tool}
use mcpgate.RateLimit.{allowed, one_token, allow}
use mcpgate.Auth.Types.{AuthResult}
use mcpgate.Auth.Access.{AccessToken, load_access_token}
use mcpgate.Store.Artifacts.{get_artifact}
use mcpgate.Store.Tickets.{get_ticket}
use mcpgate.Store.Tickets.Rows.{IsKeyed}
use mcpgate.Store.Tickets.Updates.{team_rows}
use mcpgate.Gateway.Clean.{Clean, whole}
use mcpgate.Gateway.Validate.{validate_inputs, coerce_args, coerce_integer}
use mcpgate.Gateway.Validate.Requests.{Request, validate_inputs-Request}
use mcpgate.Gateway.Dispatch.{row, teams_of, visible_ticket, dispatch}
use mcpgate.Gateway.Dispatch.Shown.{Shows}
use mcpgate.Gateway.Pipeline.{Invocation, Readings, returned, raised, guarded, invoke}
use mcpgate.Gateway.Pipeline.Mediation.{Passed, invoke_returned, invoke_confined}
use mcpgate.Gateway.Pipeline.Audited.{IsAudited, invoke-IsAudited}
use mcpgate.Gateway.Pipeline.Effects.{invoke_raised}
use mcpgate.Tests.World.{db, gateway, state, readings, reading, alpha_ticket}

pub db-IsKeyed : IsKeyed db
db-IsKeyed = record { ascending = (omega arith, (omega arith, omega arith)); bounded = omega arith }

abbrev pub access : AccessToken
access = record {
  token = "jwt";
  client_id = "ann";
  scopes = "tickets:read" ∷ [];
  expires_at = 901;
  resource = "url";
  subject = "ann";
  claims = record { teams = some ("alpha" ∷ []); jti = some "j1" };
}

abbrev pub asked : Clean
asked = ("ticket_id", whole (pos 1)) ∷ []

abbrev pub two_calls : List (Invocation × Readings)
two_calls = (reading 1, readings) ∷ (reading 2, readings) ∷ []

-- Ann reads her team's ticket, and is told of another team's that there is none.
pub run_returns : (invoke gateway (reading 1) readings state).0 ≡ returned (row (some alpha_ticket))
unfolding invoke guarded load_access_token get_artifact allow require_tool validate_inputs
    coerce_args coerce_integer dispatch visible_ticket get_ticket ◌==◌
run_returns = refl

pub run_hides : (invoke gateway (reading 2) readings state).0 ≡ raised Code.not_found none
unfolding invoke guarded load_access_token get_artifact allow require_tool validate_inputs
    coerce_args coerce_integer dispatch visible_ticket get_ticket ◌==◌
run_hides = refl

pub ann_loads : load_access_token gateway.provider "jwt" 5 6 db ≡ AuthResult.ok (some access)
unfolding load_access_token get_artifact ◌==◌
ann_loads = refl

invoke_returned_example :
    (a : AccessToken) × (load_access_token gateway.provider "jwt" 5 6 db ≡ AuthResult.ok (some a))
    × ((allow gateway.limiter a.client_id one_token 7 []).0 ≡ allowed)
    × Passed gateway (reading 1) readings a db (row (some alpha_ticket))
    × Shows (teams_of a) (row (some alpha_ticket))
invoke_returned_example =
    invoke_returned gateway (reading 1) readings state (row (some alpha_ticket)) db-IsKeyed
      run_returns

invoke-IsAudited_example :
    IsAudited gateway (reading 2) state (invoke gateway (reading 2) readings state)
invoke-IsAudited_example = invoke-IsAudited gateway (reading 2) readings state

same_access : {a b : AccessToken} → AuthResult.ok (some a) ≡ AuthResult.ok (some b) → a ≡ b
same_access h = cc

not_beta :
    (a : AccessToken)
    → load_access_token gateway.provider "jwt" 5 6 db ≡ AuthResult.ok (some a)
    → contains (teams_of a) "beta" ≡ false
unfolding ◌==◌
not_beta a h =
    subst (λ b. contains (teams_of b) "beta" ≡ false) (same_access (sym ann_loads ∙ h)) refl

invoke_confined_example :
    team_rows "beta" (invoke gateway (reading 1) readings state).1.db.tickets
    ≡ team_rows "beta" db.tickets
invoke_confined_example =
    invoke_confined gateway (reading 1) readings state "beta" db-IsKeyed not_beta

invoke_raised_example :
    ((invoke gateway (reading 2) readings state).1.db.tickets ≡ db.tickets)
    × ((invoke gateway (reading 2) readings state).1.db.last_ticket_id ≡ 2)
    × ((invoke gateway (reading 2) readings state).1.db.artifacts ≡ db.artifacts)
invoke_raised_example =
    invoke_raised gateway (reading 2) readings state Code.not_found none run_hides

pub asked_passes : validate_inputs "get_ticket" (reading 1).args ≡ ok asked
unfolding validate_inputs coerce_args coerce_integer ◌==◌
asked_passes = refl

validate_inputs-Request_example : Request "get_ticket" asked
validate_inputs-Request_example =
    validate_inputs-Request "get_ticket" (reading 1).args asked asked_passes
