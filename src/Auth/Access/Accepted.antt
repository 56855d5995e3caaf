-- ===== src/Auth/Access/Accepted.antt =====
-- Which access tokens are accepted: an issued one until it expires, a revoked one never again.
use mcpgate.Prelude.{
  ℕ, ◌+◌, ◌*◌, ◌/◌, String, ◌≡◌, ◌≢◌, refl, ap, ◌∙◌, true, false, Option, none, some, List, ==_refl,
  ltb,
}
use mcpgate.Policy
use mcpgate.Policy.{ClientPolicy}
use mcpgate.Policy.Order.{sorted_set}
use mcpgate.Crypto.{Claims}
use mcpgate.Store.{access_token, refresh_token, Db}
use mcpgate.Store.Artifacts.{Found, get_artifact}
use mcpgate.Store.Artifacts.Spent.{Later, revoked_forever}
use mcpgate.Store.Artifacts.RoundTrip.{get-put_self, get-put_ne, get_artifact-same}
use mcpgate.Auth.Types.{Provider, ok, second}
use mcpgate.Auth.Issue.{Draw, claims_of, token_payload, issue_to, issue_pair}
use mcpgate.Auth.Access.{
  decoded_access, checked_access, access_of, jti_differs, load_access_token, revoke_token,
}

unread_refused :
    (p : Provider) (token : String) (now : ℕ) (db : Db) (o : Option Claims)
    → get_artifact p.crypto token access_token false now db ≡ (none, db)
    → decoded_access p token now db o ≡ ok none
unfolding decoded_access checked_access
unread_refused p token now db none h = refl
unread_refused p token now db (some claims) h = ap (λ r. checked_access p token claims r.0) h

-- Whether a token is accepted depends on what is found of it alone.
pub load_access_token-found :
    (p : Provider) (token : String) (now now' : ℕ) (d e : Db)
    → (get_artifact p.crypto token access_token false now' d).0
      ≡ (get_artifact p.crypto token access_token false now' e).0
    → load_access_token p token now now' d ≡ load_access_token p token now now' e
unfolding load_access_token decoded_access
load_access_token-found p token now now' d e h = go _
  where
    go : (o : Option Claims) → decoded_access p token now' d o ≡ decoded_access p token now' e o
    go none = refl
    go (some claims) = ap (checked_access p token claims) h

-- So it depends on the artifacts alone.
pub load_access_token-same :
    (p : Provider) (token : String) (now now' : ℕ) (d e : Db)
    → d.artifacts ≡ e.artifacts
    → load_access_token p token now now' d ≡ load_access_token p token now now' e
load_access_token-same p token now now' d e h =
    load_access_token-found p token now now' d e
      (get_artifact-same p.crypto token access_token now' d e h)

module _ (p : Provider) (token : String) (now now' : ℕ) where
  -- A revoked access token is refused from then on, whatever the JWT library says of it, as long as no
  -- access token with its digest is issued again.
  pub load-revoke_token :
      (db later : Db)
      → Later p.crypto (p.crypto.sha256 token) access_token (revoke_token p token db) later
      → load_access_token p token now now' later ≡ ok none
  unfolding load_access_token revoke_token
  load-revoke_token db later l =
      unread_refused p token now' later _
        (revoked_forever p.crypto token access_token false now' db later l)

module _ (p : Provider) (client_id : String) (scopes : List String) (d : Draw)
    (client : ClientPolicy) where
  abbrev pub issued_claims : Claims
  issued_claims = claims_of p client client_id scopes p.settings.resource_url d

  abbrev pub issued_token : String
  issued_token = p.crypto.jwt_encode issued_claims p.settings.jwt_secret

  -- A client of the policy is issued a pair.
  pub issue_pair-known :
      (db : Db)
      → Policy.client p.policy client_id ≡ some client
      → (issue_pair p client_id scopes p.settings.resource_url d db).0
        ≡ ok (record {
          access_token = issued_token;
          expires_in = p.settings.access_token_ttl;
          scope = scopes;
          refresh_token = d.refresh;
        })
  unfolding issue_pair issue_to
  issue_pair-known db held = rw held refl

  loaded :
      (now' : ℕ) (db : Db) (o : Option Found) (f : Found)
      → (get_artifact p.crypto issued_token access_token false now' db).0 ≡ some f
      → f.payload.jti ≡ some d.jti
      → decoded_access p issued_token now' db (some issued_claims)
        ≡ ok (
            some (record {
              token = issued_token;
              client_id = client_id;
              scopes = scopes;
              expires_at = d.now / second + p.settings.access_token_ttl;
              resource = p.settings.resource_url;
              subject = client_id;
              claims = record { teams = some (sorted_set client.teams); jti = some d.jti };
            }))
  unfolding decoded_access checked_access access_of jti_differs
  loaded now' db o f h e = rw (h, e, ==_refl d.jti) refl

  -- An access token that was issued to a client of the policy is accepted until it expires, for the
  -- client, with exactly the scopes and the client's teams, if the JWT library decodes the token to the
  -- claims it encodes and the two new tokens have different digests.
  pub load-issue_pair :
      (now now' : ℕ) (db : Db)
      → Policy.client p.policy client_id ≡ some client
      → p.crypto.jwt_decode issued_token p.settings.jwt_secret p.settings.resource_url
          p.settings.issuer_url now
        ≡ some issued_claims
      → p.crypto.sha256 d.refresh ≢ p.crypto.sha256 issued_token
      → ltb now' ((d.now / second + p.settings.access_token_ttl) * second) ≡ true
      → load_access_token p issued_token now now'
          (issue_pair p client_id scopes p.settings.resource_url d db).1
        ≡ ok (
            some (record {
              token = issued_token;
              client_id = client_id;
              scopes = scopes;
              expires_at = d.now / second + p.settings.access_token_ttl;
              resource = p.settings.resource_url;
              subject = client_id;
              claims = record { teams = some (sorted_set client.teams); jti = some d.jti };
            }))
  unfolding load_access_token issue_pair issue_to
  load-issue_pair now now' db held decodes apart early =
      rw (held, decodes)
        (loaded now' _ none
          (record {
            payload = token_payload scopes (some d.jti);
            client_id = client_id;
            expires_at = issued_claims.exp * second;
          })
          (get-put_ne p.crypto d.refresh client_id refresh_token _ _ issued_token access_token false
              now' _ apart
            ∙ get-put_self p.crypto issued_token client_id access_token _ _ access_token false now'
                db
            ∙ rw early refl)
          refl)
