-- ===== src/OauthDemo/Steps.antt =====
-- The tables of the provider between the requests of the demo.
use mcpgate.Prelude.{
  ℕ, ◌+◌, ◌*◌, ◌/◌, String, ◌≡◌, ◌≢◌, refl, ap, ◌∙◌, true, false, some, none, [], ◌∷◌, ◌==◌,
  ==_refl, ltb, ◌≤◌, arith,
}
use mcpgate.Crypto.{Crypto}
use mcpgate.Policy.{granted, authorize_scopes}
use mcpgate.Policy.Shipped.{
  shipped, operator, both_scopes, operator_known, operator_granted, operator_reads,
}
use mcpgate.Policy.Order.{sorted_set, text_lt}
use mcpgate.Policy
use mcpgate.Store.{authorization_code, Db, new_db}
use mcpgate.Store.Artifacts.{Found, get_artifact}
use mcpgate.Store.Artifacts.Spent.{at_once}
use mcpgate.Store.Tickets.{seed}
use mcpgate.Auth.Words.{join}
use mcpgate.Auth.Types.{Provider, Settings, ok, second, ClientInfo, Params, is_foreign}
use mcpgate.Auth.Authorize.{get_client, authorize, code_payload, load_authorization_code}
use mcpgate.Auth.Authorize.Codes.{
  authorized_code, load-authorize_own, found-authorize, authorize-granted,
}
use mcpgate.Auth.Exchange.{exchange_authorization_code}
use mcpgate.Auth.Exchange.SingleUse.{load-exchanged}
use mcpgate.Auth.Access.{AccessToken, load_access_token}
use mcpgate.Auth.Access.Accepted.{issued_claims, issued_token}
use mcpgate.Auth.Flow.{pair_of, access_of_pair, load-exchange-authorize, load-authorize_apart}
use mcpgate.OauthDemo.{redirect_uri, client_secret, query, Verifiers, Turns}
use mcpgate.OauthDemo.Web.{params_of}

-- What `get_client` makes of the operator.
abbrev pub operator_info : ClientInfo
operator_info = record {
  client_id = "operator-agent";
  client_secret = client_secret;
  scope = "tickets:read tickets:write";
}

pub own_resource : (url : String) → is_foreign (some url) url ≡ false
own_resource url = ground (arith, ==_refl url)

module _ (c : Crypto) (settings : Settings) (s256 : String → String) (v : Verifiers) (turns : Turns)
    (now : ℕ) where
  abbrev pub provider_of : Provider
  provider_of = record { crypto = c; policy = shipped; settings = settings }

  abbrev pub first_params : Params
  first_params = params_of (query (s256 v.first) both_scopes "demo-state" settings.resource_url)

  abbrev pub second_params : Params
  second_params = params_of (query (s256 v.other) ("tickets:read" ∷ []) "s2" settings.resource_url)

  -- The database after the seed, the first authorization, the exchange, the second authorization.
  abbrev pub authorized_db : Db
  authorized_db =
      (authorize provider_of operator_info first_params turns.authorize_turn.code
        turns.authorize_turn.now (seed now new_db)).1

  abbrev pub exchanged_db : Db
  exchanged_db =
      (exchange_authorization_code provider_of operator_info turns.authorize_turn.code
        turns.token_turn.later turns.token_turn.draw authorized_db).1

  abbrev pub second_db : Db
  second_db =
      (authorize provider_of operator_info second_params turns.second_turn.code
        turns.second_turn.now exchanged_db).1

  -- The access token that the demo is issued, and what it stands for.
  abbrev pub token_text : String
  token_text = issued_token provider_of "operator-agent" both_scopes turns.token_turn.draw operator

  abbrev pub expiry : ℕ
  expiry = (turns.token_turn.draw.now / second + settings.access_token_ttl) * second

  -- The access token's `iat`, before which PyJWT refuses it.
  abbrev pub issued_at : ℕ
  issued_at = turns.token_turn.draw.now / second * second

  abbrev pub operator_access : AccessToken
  operator_access =
      access_of_pair provider_of operator_info first_params both_scopes turns.token_turn.draw
        operator

  -- What the provider finds of the first code.
  abbrev pub found_code : Found
  found_code = record {
    payload = code_payload provider_of first_params both_scopes;
    client_id = "operator-agent";
    expires_at = turns.authorize_turn.now + 120 * second;
  }

  -- The codes are used within their 120 seconds, and the access token from its `iat` on, before it expires.
  pub record IsInTime : Type 0 where
    pub loaded : ltb turns.token_turn.now (turns.authorize_turn.now + 120 * second) ≡ true
    pub redeemed : ltb turns.token_turn.later (turns.authorize_turn.now + 120 * second) ≡ true
    pub second_loaded : ltb turns.mismatch_turn.now (turns.second_turn.now + 120 * second) ≡ true
    pub greeted_after : issued_at ≤ turns.initialize_turn.now
    pub called_after : issued_at ≤ turns.call_turn.now
    pub decoded_after : issued_at ≤ turns.call_turn.readings.decode_now
    pub greeted : ltb turns.initialize_turn.now expiry ≡ true
    pub called : ltb turns.call_turn.now expiry ≡ true
    pub decoded : ltb turns.call_turn.readings.decode_now expiry ≡ true
    pub read : ltb turns.call_turn.readings.artifact_now expiry ≡ true

  -- The JWT library decodes the token to the claims it encodes from its `iat` on until it expires; the digests of the new
  -- tokens and of the second code differ from the access token's.
  pub record IsSound : Type 0 where
    pub decodes :
        (n : ℕ)
        → issued_at ≤ n
        → ltb n expiry ≡ true
        → c.jwt_decode token_text settings.jwt_secret settings.resource_url settings.issuer_url n
          ≡ some (
              issued_claims provider_of "operator-agent" both_scopes turns.token_turn.draw operator)
    pub refresh_apart : c.sha256 turns.token_turn.draw.refresh ≢ c.sha256 token_text
    pub code_apart : c.sha256 turns.second_turn.code ≢ c.sha256 token_text

  pub operator_client : get_client provider_of "operator-agent" ≡ some operator_info
  unfolding join get_client shipped sorted_set ◌==◌ Policy.client text_lt
  operator_client = refl

  module _ (in_time : IsInTime) (sound : IsSound) where
    pub first_redirects :
        (authorize provider_of operator_info first_params turns.authorize_turn.code
          turns.authorize_turn.now
          (seed now new_db)).0
        ≡ ok (record {
          uri = redirect_uri;
          code = turns.authorize_turn.code;
          state = some "demo-state";
        })
    first_redirects =
        ap (λ o. o.0)
          (authorize-granted provider_of operator_info first_params turns.authorize_turn.code
            turns.authorize_turn.now (seed now new_db) both_scopes operator_granted
            (own_resource settings.resource_url))

    pub code_found :
        (get_artifact c turns.authorize_turn.code authorization_code true turns.token_turn.later
          authorized_db).0
        ≡ some found_code
    code_found =
        found-authorize provider_of operator_info first_params turns.authorize_turn.code
          turns.authorize_turn.now (seed now new_db) both_scopes operator_granted
          (own_resource settings.resource_url) turns.token_turn.later in_time.redeemed

    pub first_loads :
        load_authorization_code provider_of operator_info turns.authorize_turn.code
          turns.token_turn.now authorized_db
        ≡ ok (
            some (
              authorized_code provider_of operator_info first_params turns.authorize_turn.code
                turns.authorize_turn.now both_scopes))
    first_loads =
        load-authorize_own provider_of operator_info first_params turns.authorize_turn.code
          turns.authorize_turn.now (seed now new_db) both_scopes operator_granted
          (own_resource settings.resource_url) turns.token_turn.now in_time.loaded

    pub exchange_issues :
        (exchange_authorization_code provider_of operator_info turns.authorize_turn.code
          turns.token_turn.later turns.token_turn.draw authorized_db).0
        ≡ ok (
            pair_of provider_of operator_info first_params both_scopes turns.token_turn.draw
              operator)
    exchange_issues =
        (load-exchange-authorize provider_of operator_info first_params both_scopes
          turns.token_turn.draw operator turns.authorize_turn.code turns.authorize_turn.now
          turns.token_turn.later (seed now new_db) operator_granted
          (own_resource settings.resource_url) operator_known in_time.redeemed
          turns.initialize_turn.now turns.initialize_turn.now
          (sound.decodes turns.initialize_turn.now in_time.greeted_after in_time.greeted)
          sound.refresh_apart in_time.greeted).1

    pub replay_unknown :
        load_authorization_code provider_of operator_info turns.authorize_turn.code
          turns.replay_turn.now exchanged_db
        ≡ ok none
    replay_unknown =
        load-exchanged provider_of operator_info operator_info turns.token_turn.later
          turns.replay_turn.now turns.token_turn.draw found_code turns.authorize_turn.code
          authorized_db exchanged_db code_found at_once

    pub second_redirects :
        (authorize provider_of operator_info second_params turns.second_turn.code
          turns.second_turn.now exchanged_db).0
        ≡ ok (record { uri = redirect_uri; code = turns.second_turn.code; state = some "s2" })
    second_redirects =
        ap (λ o. o.0)
          (authorize-granted provider_of operator_info second_params turns.second_turn.code
            turns.second_turn.now exchanged_db ("tickets:read" ∷ []) operator_reads
            (own_resource settings.resource_url))

    pub second_loads :
        load_authorization_code provider_of operator_info turns.second_turn.code
          turns.mismatch_turn.now second_db
        ≡ ok (
            some (
              authorized_code provider_of operator_info second_params turns.second_turn.code
                turns.second_turn.now
                ("tickets:read" ∷ [])))
    second_loads =
        load-authorize_own provider_of operator_info second_params turns.second_turn.code
          turns.second_turn.now exchanged_db ("tickets:read" ∷ []) operator_reads
          (own_resource settings.resource_url) turns.mismatch_turn.now in_time.second_loaded

    pub access_loads :
        (n m : ℕ)
        → issued_at ≤ n
        → ltb n expiry ≡ true
        → ltb m expiry ≡ true
        → load_access_token provider_of token_text n m second_db ≡ ok (some operator_access)
    access_loads n m begun early live =
        load-authorize_apart provider_of operator_info second_params ("tickets:read" ∷ [])
          turns.second_turn.code token_text turns.second_turn.now n m exchanged_db operator_reads
          (own_resource settings.resource_url) sound.code_apart
        ∙ (load-exchange-authorize provider_of operator_info first_params both_scopes
            turns.token_turn.draw operator turns.authorize_turn.code turns.authorize_turn.now
            turns.token_turn.later (seed now new_db) operator_granted
            (own_resource settings.resource_url) operator_known in_time.redeemed n m
            (sound.decodes n begun early) sound.refresh_apart live).2
