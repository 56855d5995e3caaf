-- ===== src/OauthDemo/Passes.antt =====
-- The demo passes.
use mcpgate.Prelude.{
  ℕ, ◌*◌, ◌≤◌, String, ◌≡◌, ◌≢◌, refl, ◌∙◌, true, false, some, none, [], ◌∷◌, ◌==◌, ==_refl,
  is_subset, arith,
}
use Prim.Native.String.{◌++◌ as text_append}
use mcpgate.Crypto.{Crypto}
use mcpgate.Policy.Shipped.{shipped, both_scopes}
use mcpgate.RateLimit.{Limiter, one_token}
use mcpgate.RateLimit.Burst.{new_limiter-some}
use mcpgate.Store.{new_db}
use mcpgate.Store.Tickets.{seed}
use mcpgate.Gateway.Validate.{is_space}
use mcpgate.Auth.Words.{split}
use mcpgate.Auth.Types.{Settings}
use mcpgate.Gateway.Dispatch.{rows}
use mcpgate.Gateway.Pipeline.{Gateway, State, invoke}
use mcpgate.Runtime.{create_runtime}
use mcpgate.Server.Tools.{list_tickets}
use mcpgate.Server.Calls.Replied.{audited_call_tool-returned}
use mcpgate.OauthDemo.{
  Web, Verifiers, Turns, query, form, call_part, mismatch_part, token_part, run_flow, oauth_flow,
  client_id, client_secret,
}
use mcpgate.OauthDemo.Web.{IsSdk, tool_request}
use mcpgate.OauthDemo.Steps.{
  operator_info, authorized_db, exchanged_db, token_text, operator_access, operator_client,
  IsInTime, IsSound, first_redirects, first_loads, exchange_issues, replay_unknown,
  second_redirects, second_loads, access_loads,
}
use mcpgate.OauthDemo.Call.{
  gateway_of, second_state, list_call, seeded_rows, seeded_rows_shown, second_tables, call_returns,
}
use mcpgate.OauthDemo.Parts.{
  call_part-passes, mismatch_part-passes, token_part-passes, run_flow-passes,
}
use mcpgate.OauthDemo.Logged.{call_logged, call_verifies}

-- What the random draws and the challenges must be for the demo: no new text is empty, and the altered
-- verifier has another challenge.
pub record IsDrawn (s256 : String → String) (v : Verifiers) (turns : Turns) (token : String)
    : Type 0 where
  pub code_drawn : (turns.authorize_turn.code == "") ≡ false
  pub token_drawn : (token == "") ≡ false
  pub altered : s256 (text_append v.other "tampered") ≢ s256 v.other

both_allowed : is_subset both_scopes (split operator_info.scope) ≡ true
unfolding split is_space ◌==◌
both_allowed = refl

reading_allowed : is_subset ("tickets:read" ∷ []) (split operator_info.scope) ≡ true
unfolding split is_space ◌==◌
reading_allowed = refl

secret_known : (client_secret == client_secret) ≡ true
secret_known = ==_refl client_secret

seeded_log : (now : ℕ) → (seed now new_db).events ≡ []
unfolding seed
seeded_log now = refl

module _ (c : Crypto) (settings : Settings) (s256 : String → String) (v : Verifiers) (turns : Turns)
    (now : ℕ) (limiter : Limiter) (web : Web)
    (laws : IsSdk s256 (gateway_of c settings s256 v turns now limiter) web)
    (in_time : IsInTime c settings s256 v turns now) (sound : IsSound c settings s256 v turns now)
    (drawn : IsDrawn s256 v turns (token_text c settings s256 v turns now)) where
  call_passes :
      one_token ≤ limiter.capacity
      → call_part
          (gateway_of c settings s256 v turns now limiter)
          web
          turns
          (token_text c settings s256 v turns now)
          true
          (second_state c settings s256 v turns now limiter)
        ≡ some true
  call_passes enough =
      let g = gateway_of c settings s256 v turns now limiter in
      let s = second_state c settings s256 v turns now limiter in
      let i = list_call c settings s256 v turns now limiter in
      let loads = access_loads c settings s256 v turns now in_time sound in
      let returns = call_returns c settings s256 v turns now limiter in_time sound enough in
      let fresh =
        (second_tables c settings s256 v turns now limiter in_time sound).events ∙ seeded_log now in
      let (greeting, e1) =
        laws.serving.greets (token_text c settings s256 v turns now) turns.initialize_turn s
          (operator_access c settings s256 v turns now)
          (loads turns.initialize_turn.now turns.initialize_turn.now in_time.greeted_after
            in_time.greeted in_time.greeted)
          in_time.greeted in
      let (call, e2, shown) =
        laws.serving.answers (token_text c settings s256 v turns now) "list_tickets" []
          turns.call_turn s (invoke g i turns.call_turn.readings s).1
          (operator_access c settings s256 v turns now) (seeded_rows now)
          (loads turns.call_turn.now turns.call_turn.now in_time.called_after in_time.called
            in_time.called)
          in_time.called
          (audited_call_tool-returned laws.sdk laws.rewrapping g
            (tool_request (token_text c settings s256 v turns now)
              (operator_access c settings s256 v turns now) "list_tickets" [])
            turns.call_turn.readings turns.call_turn.later s
            (record { token = token_text c settings s256 v turns now; client_id = client_id }) "2"
            (list_tickets none) (rows (seeded_rows now)) refl refl laws.defaults returns) in
      let (e, logged) =
        call_logged g i turns.call_turn.readings s fresh (rows (seeded_rows now)) returns in
      call_part-passes s256 g web v turns (token_text c settings s256 v turns now) s s
        (invoke g i turns.call_turn.readings s).1 greeting call (seeded_rows now) e e1 e2 shown
        (seeded_rows_shown now) logged (call_verifies g i turns.call_turn.readings s fresh)

  mismatch_passes :
      one_token ≤ limiter.capacity
      → mismatch_part
          (gateway_of c settings s256 v turns now limiter)
          web
          v
          turns
          settings.resource_url
          (token_text c settings s256 v turns now)
          true
          (some turns.second_turn.code)
          (second_state c settings s256 v turns now limiter)
        ≡ some true
  mismatch_passes enough =
      let (r, e, refused) =
        laws.authorizing.unproven_refused
          (form turns.second_turn.code (text_append v.other "tampered") settings.resource_url)
          turns.mismatch_turn (second_state c settings s256 v turns now limiter) operator_info _
          (operator_client c settings s256 v turns now, secret_known)
          (second_loads c settings s256 v turns now in_time sound) drawn.altered in
      mismatch_part-passes s256 (gateway_of c settings s256 v turns now limiter) web v turns
        settings.resource_url (token_text c settings s256 v turns now) turns.second_turn.code
        (second_state c settings s256 v turns now limiter)
        (second_state c settings s256 v turns now limiter) r e refused (call_passes enough)

  token_passes :
      one_token ≤ limiter.capacity
      → token_part s256
          (gateway_of c settings s256 v turns now limiter)
          web
          v
          turns
          true
          (record { db = seed now new_db; buckets = [] })
        ≡ some true
  token_passes enough =
      let url = settings.resource_url in
      let s : State = record { db = seed now new_db; buckets = [] } in
      let s1 : State = record { db = authorized_db c settings s256 v turns now; buckets = [] } in
      let s2 : State = record { db = exchanged_db c settings s256 v turns now; buckets = [] } in
      let known = operator_client c settings s256 v turns now in
      let paper = form turns.authorize_turn.code v.first url in
      let (page, a, a1, a2) =
        laws.authorizing.redirects (query (s256 v.first) both_scopes "demo-state" url)
          turns.authorize_turn s operator_info _ known refl both_allowed
          (first_redirects c settings s256 v turns now in_time sound) in
      let (issued, b, b1, b2) =
        laws.authorizing.exchanges paper turns.token_turn s1 operator_info _ _ (known, secret_known)
          (first_loads c settings s256 v turns now in_time sound) refl refl
          (exchange_issues c settings s256 v turns now in_time sound) in
      let (replay, d, d1) =
        laws.authorizing.unknown_refused paper turns.replay_turn s2 operator_info
          (known, secret_known) (replay_unknown c settings s256 v turns now in_time sound) in
      let (other, e, _, e1) =
        laws.authorizing.redirects (query (s256 v.other) ("tickets:read" ∷ []) "s2" url)
          turns.second_turn s2 operator_info _ known refl reading_allowed
          (second_redirects c settings s256 v turns now in_time sound) in
      token_part-passes s256 (gateway_of c settings s256 v turns now limiter) web v turns
        turns.authorize_turn.code (token_text c settings s256 v turns now) turns.second_turn.code s
        s1 s2 s2 (second_state c settings s256 v turns now limiter) page issued replay other a a1 a2
        drawn.code_drawn b b1 b2 drawn.token_drawn d d1 e e1 (mismatch_passes enough)

  flow_passes :
      one_token ≤ limiter.capacity
      → run_flow s256
          (gateway_of c settings s256 v turns now limiter)
          web
          v
          turns
          (record { db = seed now new_db; buckets = [] })
        ≡ some true
  flow_passes enough =
      let s : State = record { db = seed now new_db; buckets = [] } in
      let (resource, a, a1) = laws.is_open.resource_described turns.resource_turn s in
      let (metadata, b, b1) = laws.is_open.server_described turns.server_turn s in
      let (anonymous, d, d1) = laws.is_open.challenged turns.anonymous_turn s in
      run_flow-passes s256 (gateway_of c settings s256 v turns now limiter) web v turns s s s s
        resource metadata anonymous a a1 b b1 d d1 (token_passes enough)

-- The limiter of the settings.
abbrev pub limiter_of : ℕ → ℕ → Limiter
limiter_of capacity rate = record { capacity = capacity * one_token; refill_per_second = rate }

-- With the shipped policy and a limiter that can be built, the demo exits with status 0: the discovery
-- documents are served, a call without a token is refused by 401, the code is issued and exchanged for
-- tokens, its replay and a wrong verifier are refused by 400, `list_tickets` shows the teams alpha and
-- beta and no other, and the log verifies and holds the call. This is if the SDK uses the provider and
-- the server's handler as it promises (the documents' statuses, the 401 and the 400 of a wrong verifier are
-- its own), the codes and the token are used in their lifetimes, the JWT library decodes what it encodes
-- within the token's, the refresh token and the second code have other digests than the
-- access token, the first code and the access token are not empty, and the altered verifier has another
-- challenge.
pub oauth_flow-passes :
    (c : Crypto) (settings : Settings) (s256 : String → String) (v : Verifiers) (turns : Turns)
    (now capacity rate : ℕ) (web : Gateway → Web)
    → 1 ≤ capacity
    → 1 ≤ rate
    → (let g = gateway_of c settings s256 v turns now (limiter_of capacity rate) in
        IsSdk s256 g (web g))
    → IsInTime c settings s256 v turns now
    → IsSound c settings s256 v turns now
    → IsDrawn s256 v turns (token_text c settings s256 v turns now)
    → oauth_flow s256 web c shipped settings capacity rate now v turns ≡ some 0
unfolding oauth_flow create_runtime
oauth_flow-passes c settings s256 v turns now capacity rate web a b laws in_time sound drawn =
    rw (new_limiter-some capacity rate a b) (
      rw
        (flow_passes c settings s256 v turns now (limiter_of capacity rate)
          (web (gateway_of c settings s256 v turns now (limiter_of capacity rate))) laws in_time
          sound drawn (omega (arith, a)))
        refl)
