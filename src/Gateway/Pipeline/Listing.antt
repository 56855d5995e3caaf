-- ===== src/Gateway/Pipeline/Listing.antt =====
-- A call of `list_tickets` for every status, as the benchmark and the OAuth demo make it.
use mcpgate.Prelude.{ℕ, String, ◌≡◌, refl, Option, none, some, [], ◌∷◌, ◌==◌}
use mcpgate.Result.{ok}
use mcpgate.Value
use mcpgate.Policy
use mcpgate.Policy.{ToolPolicy, granted}
use mcpgate.RateLimit.{allowed, one_token, allow}
use mcpgate.Store.{Db}
use mcpgate.Store.Tickets.{list_tickets}
use mcpgate.Store.Events.{append_audit}
use mcpgate.Audit.{record_event}
use mcpgate.Auth.Types.{AuthResult}
use mcpgate.Auth.Access.{AccessToken, load_access_token}
use mcpgate.Gateway.Clean.{nothing}
use mcpgate.Gateway.Validate.{validate_inputs, coerce_args}
use mcpgate.Gateway.Dispatch.{rows, teams_of, dispatch}
use mcpgate.Gateway.Pipeline.{
  Invocation, Gateway, State, Readings, returned, guarded, finish, authenticated, invoke,
}
use mcpgate.Gateway.Pipeline.Audited.{guarded-SameElsewhere}
use mcpgate.Gateway.Pipeline.Granted.{invoke_granted}

list_passes :
    validate_inputs "list_tickets" (("status", Value.null) ∷ []) ≡ ok (("status", nothing) ∷ [])
unfolding validate_inputs coerce_args ◌==◌
list_passes = refl

dispatch_lists :
    (access : AccessToken) (t : ℕ) (db : Db)
    → (dispatch "list_tickets" (("status", nothing) ∷ []) access t db).0
      ≡ ok (rows (list_tickets (teams_of access) none db))
unfolding dispatch ◌==◌
dispatch_lists access t db = refl

abbrev pub listing : String → Option String → Invocation
listing token session_id = record {
  tool = "list_tickets";
  args = ("status", Value.null) ∷ [];
  token = token;
  session_id = session_id;
}

module _ (g : Gateway) (r : Readings) (s : State) (access : AccessToken) where
  -- It returns the tickets of the token's teams.
  pub invoke_lists :
      (token : String) (session_id : Option String) (rule : ToolPolicy)
      → load_access_token g.provider token r.decode_now r.artifact_now s.db
        ≡ AuthResult.ok (some access)
      → (allow g.limiter access.client_id one_token r.bucket_now s.buckets).0 ≡ allowed
      → Policy.require_tool g.policy "list_tickets" access.scopes ≡ granted rule
      → (invoke g (listing token session_id) r s).0
        ≡ returned (rows (list_tickets (teams_of access) none s.db))
  invoke_lists token session_id rule live free may =
      (invoke_granted g (listing token session_id) r access s rule (("status", nothing) ∷ [])
        (rows (list_tickets (teams_of access) none s.db)) live free may list_passes
        (dispatch_lists access r.write_now s.db)).0

  -- An authenticated call takes one token of its client's bucket.
  pub invoke-buckets :
      (i : Invocation)
      → load_access_token g.provider i.token r.decode_now r.artifact_now s.db
        ≡ AuthResult.ok (some access)
      → (invoke g i r s).1.buckets
        ≡ (allow g.limiter access.client_id one_token r.bucket_now s.buckets).1
  unfolding invoke authenticated finish guarded
  invoke-buckets i live = rw live refl

-- A call leaves the tokens as they are.
pub invoke-artifacts :
    (g : Gateway) (i : Invocation) (r : Readings) (s : State)
    → (invoke g i r s).1.db.artifacts ≡ s.db.artifacts
unfolding invoke authenticated finish record_event append_audit
invoke-artifacts g i r s =
    go (load_access_token g.provider i.token r.decode_now r.artifact_now s.db)
  where
    go :
        (a : AuthResult (Option AccessToken))
        → (authenticated g i r a s).1.db.artifacts ≡ s.db.artifacts
    go (AuthResult.err e) = refl
    go (AuthResult.ok access) = (guarded-SameElsewhere g i r access s).artifacts
