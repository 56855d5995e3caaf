-- ===== src/Auth/Flow.antt =====
-- The authorization-code flow as a whole: `authorize`, `exchange_authorization_code`,
-- `load_access_token`, one after the other.
use mcpgate.Prelude.{
  ℕ, ◌+◌, ◌*◌, ◌/◌, String, ◌≡◌, ◌≢◌, refl, ap, ◌∙◌, true, false, some, List, ltb,
}
use mcpgate.Policy
use mcpgate.Policy.{ClientPolicy, granted, authorize_scopes}
use mcpgate.Policy.Order.{sorted_set}
use mcpgate.Store.{authorization_code, access_token, Db}
use mcpgate.Store.Artifacts.{get_artifact}
use mcpgate.Store.Artifacts.RoundTrip.{get-put_ne}
use mcpgate.Auth.Words.{split}
use mcpgate.Auth.Types.{Provider, ok, second, ClientInfo, Params, or_scopes, is_foreign}
use mcpgate.Auth.Authorize.{code_payload, authorize}
use mcpgate.Auth.Authorize.Codes.{not_foreign, authorize-granted, found-authorize}
use mcpgate.Auth.Issue.{Draw, OauthToken, issue_pair}
use mcpgate.Auth.Exchange.{exchange_authorization_code}
use mcpgate.Auth.Exchange.Redeemed.{exchange-found}
use mcpgate.Auth.Access.{AccessToken, load_access_token}
use mcpgate.Auth.Access.Accepted.{
  issued_claims, issued_token, issue_pair-known, load-issue_pair, load_access_token-found,
}

module _ (p : Provider) (client : ClientInfo) (params : Params) (scopes : List String) (d : Draw)
    (held : ClientPolicy) where
  -- The pair of tokens that the flow gives, and what its access token stands for.
  abbrev pub pair_of : OauthToken
  pair_of = record {
    access_token = issued_token p client.client_id scopes d held;
    expires_in = p.settings.access_token_ttl;
    scope = scopes;
    refresh_token = d.refresh;
  }

  abbrev pub access_of_pair : AccessToken
  access_of_pair = record {
    token = issued_token p client.client_id scopes d held;
    client_id = client.client_id;
    scopes = scopes;
    expires_at = d.now / second + p.settings.access_token_ttl;
    resource = p.settings.resource_url;
    subject = client.client_id;
    claims = record { teams = some (sorted_set held.teams); jti = some d.jti };
  }

  module _ (code : String) (now t : ℕ) (db : Db)
      (grants : authorize_scopes p.policy client.client_id
          (or_scopes params.scopes (split client.scope))
        ≡ granted scopes)
      (here : is_foreign params.resource p.settings.resource_url ≡ false)
      (known : Policy.client p.policy client.client_id ≡ some held)
      (early : ltb t (now + 120 * second) ≡ true) where
    exchanges :
        exchange_authorization_code p client code t d (authorize p client params code now db).1
        ≡ issue_pair p client.client_id scopes p.settings.resource_url d
            (get_artifact p.crypto code authorization_code true t
              (authorize p client params code now db).1).1
    exchanges =
        exchange-found p client d code t (authorize p client params code now db).1
          (record {
            payload = code_payload p params scopes;
            client_id = client.client_id;
            expires_at = now + 120 * second;
          })
          p.settings.resource_url
          (found-authorize p client params code now db scopes grants here t early) refl
          (ap (λ u. some u) (not_foreign params.resource p.settings.resource_url here))

    -- The flow gives a token that works: where the policy grants the client its scopes and the request is
    -- for this server, `authorize` redirects with the code, the client's exchange of the code within 120
    -- seconds issues a pair of tokens with these scopes, and its access token is then accepted until it
    -- expires, for the client with exactly these scopes and the client's teams, if the JWT library decodes
    -- the token to the claims it encodes and the two new tokens have different digests.
    pub load-exchange-authorize :
        (now1 now2 : ℕ)
        → p.crypto.jwt_decode pair_of.access_token p.settings.jwt_secret p.settings.resource_url
            p.settings.issuer_url now1
          ≡ some (issued_claims p client.client_id scopes d held)
        → p.crypto.sha256 d.refresh ≢ p.crypto.sha256 pair_of.access_token
        → ltb now2 ((d.now / second + p.settings.access_token_ttl) * second) ≡ true
        → let (redirect, db1) = authorize p client params code now db in
          let (token, db2) = exchange_authorization_code p client code t d db1 in
          (redirect ≡ ok (record { uri = params.redirect_uri; code = code; state = params.state }))
          × (token ≡ ok pair_of)
          × (load_access_token p pair_of.access_token now1 now2 db2 ≡ ok (some access_of_pair))
    load-exchange-authorize now1 now2 decodes apart fresh = (
      ap (λ o. o.0) (authorize-granted p client params code now db scopes grants here),
      ap (λ o. o.0) exchanges ∙ (issue_pair-known p client.client_id scopes d held _ known),
      ap (λ o. load_access_token p pair_of.access_token now1 now2 o.1) exchanges
          ∙ load-issue_pair p client.client_id scopes d held now1 now2 _ known decodes apart fresh,
    )

-- Another code does not change what an access token stands for.
pub load-authorize_apart :
    (p : Provider) (client : ClientInfo) (params : Params) (scopes : List String)
    (code token : String) (now n m : ℕ) (db : Db)
    → authorize_scopes p.policy client.client_id (or_scopes params.scopes (split client.scope))
      ≡ granted scopes
    → is_foreign params.resource p.settings.resource_url ≡ false
    → p.crypto.sha256 code ≢ p.crypto.sha256 token
    → load_access_token p token n m (authorize p client params code now db).1
      ≡ load_access_token p token n m db
load-authorize_apart p client params scopes code token now n m db grants here apart =
    load_access_token-found p token n m (authorize p client params code now db).1 db (
      rw (authorize-granted p client params code now db scopes grants here) (
        get-put_ne p.crypto code client.client_id authorization_code _ _ token access_token false m
          db apart))
