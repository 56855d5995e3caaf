-- ===== src/Gateway/Pipeline/Baseline.antt =====
-- src/mcpgate/gateway.py: `direct` beside `invoke`, as the benchmark compares them.
use mcpgate.Prelude.{ℕ, String, ◌≡◌, refl, sym, ap, ◌∙◌, some, List}
use mcpgate.Result.{ok, ok-injective}
use mcpgate.Policy.Order.{sorted_set}
use mcpgate.Store.{Db}
use mcpgate.Store.Tickets.Rows.{IsKeyed}
use mcpgate.Auth.Types.{AuthResult}
use mcpgate.Auth.Access.{AccessToken, load_access_token}
use mcpgate.Gateway.Clean.{Clean}
use mcpgate.Gateway.Validate.{validate_inputs}
use mcpgate.Gateway.Dispatch.{Reply, teams_of, dispatch, direct}
use mcpgate.Gateway.Pipeline.{Invocation, Gateway, State, Readings, returned, invoke}
use mcpgate.Gateway.Pipeline.Mediation.{invoke_returned}

-- Dispatch reads of a token its teams and its client alone.
dispatch-same_caller :
    (tool : String) (args : Clean) (a b : AccessToken) (now : ℕ) (db : Db)
    → teams_of a ≡ teams_of b
    → a.client_id ≡ b.client_id
    → dispatch tool args a now db ≡ dispatch tool args b now db
unfolding dispatch
dispatch-same_caller tool args a b now db teams client = cc

same_token : (a b : AccessToken) → AuthResult.ok (some a) ≡ AuthResult.ok (some b) → a ≡ b
same_token a b h = cc

-- The benchmark compares like with like: where a guarded call returns, in a state where the tickets'
-- keys are in order, `direct` gives the same reply to the checked arguments, if it is called for the
-- token's client and the token's teams are the given ones, sorted and each once.
pub direct-invoke :
    (g : Gateway) (i : Invocation) (r : Readings) (s : State) (reply : Reply) (teams : List String)
    (access : AccessToken) (clean : Clean)
    → IsKeyed s.db
    → (invoke g i r s).0 ≡ returned reply
    → load_access_token g.provider i.token r.decode_now r.artifact_now s.db
      ≡ AuthResult.ok (some access)
    → validate_inputs i.tool i.args ≡ ok clean
    → teams_of access ≡ sorted_set teams
    → (direct i.tool clean teams access.client_id r.write_now s.db).0 ≡ ok reply
unfolding direct
direct-invoke g i r s reply teams access clean keyed h live valid same =
    let (found, live', _, (_, _, clean', valid', answer), _) =
      invoke_returned g i r s reply keyed h in
    let token = same_token access found (sym live ∙ live') in
    let args = ok-injective clean clean' (sym valid ∙ valid') in
    ap (λ o. o.0) (dispatch-same_caller i.tool clean _ access r.write_now s.db (sym same) refl)
    ∙ (ap (λ c. (dispatch i.tool c access r.write_now s.db).0) args
        ∙ (ap (λ a. (dispatch i.tool clean' a r.write_now s.db).0) token ∙ answer))
