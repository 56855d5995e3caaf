-- ===== src/OauthDemo/Call.antt =====
-- The tool call of the demo: what it is answered, and what it leaves in the log.
use mcpgate.Prelude.{
  ℕ, ◌≤◌, String, ◌≡◌, refl, ap, ◌∙◌, true, some, none, List, [], ◌∷◌, ◌==◌, arith,
}
use mcpgate.Crypto.{Crypto}
use mcpgate.Policy.Shipped.{
  shipped, list_rule, both_scopes, operator_granted, operator_reads, operator_lists, operator_teams,
}
use mcpgate.Policy.Order.{text_lt, sorted_set}
use mcpgate.RateLimit.{Limiter, allowed, one_token, allow}
use mcpgate.Store.{Ticket, Db, new_db}
use mcpgate.Store.Artifacts.Frame.{SameTables, SameTables-trans}
use mcpgate.Store.Tickets.{seed, list_tickets}
use mcpgate.Auth.Types.{Settings}
use mcpgate.Auth.Authorize.Codes.{not_foreign, authorize-SameTables}
use mcpgate.Auth.Exchange.Redeemed.{exchange-SameTables}
use mcpgate.Gateway.Dispatch.{rows}
use mcpgate.Gateway.Pipeline.{Gateway, State, Invocation, returned, invoke}
use mcpgate.Gateway.Pipeline.Listing.{listing, invoke_lists}
use mcpgate.OauthDemo.{Verifiers, Turns, shows_both_teams}
use mcpgate.OauthDemo.Steps.{
  operator_info, own_resource, provider_of, first_params, second_params, authorized_db,
  exchanged_db, second_db, token_text, operator_access, IsInTime, IsSound, found_code, code_found,
  access_loads,
}

bucket_full :
    (l : Limiter) (identity : String) (now : ℕ)
    → one_token ≤ l.capacity
    → (allow l identity one_token now []).0 ≡ allowed
unfolding allow
bucket_full l identity now h = ground arith

-- The operator's tickets among the seeded ones.
abbrev pub seeded_rows : ℕ → List Ticket
seeded_rows now = list_tickets ("alpha" ∷ "beta" ∷ []) none (seed now new_db)

pub seeded_rows_shown : (now : ℕ) → shows_both_teams (seeded_rows now) ≡ true
unfolding shows_both_teams list_tickets seed sorted_set text_lt ◌==◌
seeded_rows_shown now = refl

listed :
    (now : ℕ) (db : Db)
    → SameTables (seed now new_db) db
    → list_tickets ("alpha" ∷ "beta" ∷ []) none db ≡ seeded_rows now
unfolding list_tickets
listed now db same = rw same.tickets refl

module _ (c : Crypto) (settings : Settings) (s256 : String → String) (v : Verifiers) (turns : Turns)
    (now : ℕ) (limiter : Limiter) where
  abbrev pub gateway_of : Gateway
  gateway_of = record {
    policy = shipped;
    provider = provider_of c settings s256 v turns now;
    limiter = limiter;
    audit_key = settings.jwt_secret;
  }

  abbrev pub second_state : State
  second_state = record { db = second_db c settings s256 v turns now; buckets = [] }

  abbrev pub list_call : Invocation
  list_call = listing (token_text c settings s256 v turns now) (some "mcp-2")

  module _ (in_time : IsInTime c settings s256 v turns now)
      (sound : IsSound c settings s256 v turns now) where
    pub second_tables : SameTables (seed now new_db) (second_db c settings s256 v turns now)
    second_tables =
        SameTables-trans
          (authorize-SameTables (provider_of c settings s256 v turns now) operator_info
            (first_params c settings s256 v turns now) turns.authorize_turn.code
            turns.authorize_turn.now (seed now new_db) both_scopes operator_granted
            (own_resource settings.resource_url))
          (SameTables-trans
            (exchange-SameTables (provider_of c settings s256 v turns now) operator_info
              turns.token_turn.draw turns.authorize_turn.code turns.token_turn.later
              (authorized_db c settings s256 v turns now) (found_code c settings s256 v turns now)
              settings.resource_url (code_found c settings s256 v turns now in_time sound) refl
              (ap (λ u. some u)
                (not_foreign (some settings.resource_url) settings.resource_url
                  (own_resource settings.resource_url))))
            (authorize-SameTables (provider_of c settings s256 v turns now) operator_info
              (second_params c settings s256 v turns now) turns.second_turn.code
              turns.second_turn.now (exchanged_db c settings s256 v turns now) ("tickets:read" ∷ [])
              operator_reads (own_resource settings.resource_url)))

    pub call_returns :
        one_token ≤ limiter.capacity
        → (invoke gateway_of list_call turns.call_turn.readings second_state).0
          ≡ returned (rows (seeded_rows now))
    call_returns enough =
        invoke_lists gateway_of turns.call_turn.readings second_state
          (operator_access c settings s256 v turns now) (token_text c settings s256 v turns now)
          (some "mcp-2") list_rule
          (access_loads c settings s256 v turns now in_time sound
            turns.call_turn.readings.decode_now turns.call_turn.readings.artifact_now
            in_time.decoded_after in_time.decoded in_time.read)
          (bucket_full limiter "operator-agent" turns.call_turn.readings.bucket_now enough)
          operator_lists
        ∙ ap (λ (l : List String). returned (rows (list_tickets l none second_state.db)))
            operator_teams
        ∙ ap (λ l. returned (rows l)) (listed now second_state.db second_tables)
