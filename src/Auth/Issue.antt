-- ===== src/Auth/Issue.antt =====
-- src/mcpgate/auth.py: `_issue_pair` and `issue_for_client`.
pub mod Grants
pub mod Keeps
use Prim.Native.Char.{code}
use Prim.Native.String
use mcpgate.Prelude.{
  ℕ, ◌+◌, ◌*◌, ◌/◌, String, Bool, true, false, Option, none, some, List, ◌==◌, ◌&&◌, ltb,
  if◌then◌else◌,
}
use mcpgate.Policy
use mcpgate.Policy.{Policy, ClientPolicy, Permission, granted, denied}
use mcpgate.Policy.Order.{sorted_set}
use mcpgate.Crypto.{Claims}
use mcpgate.Store.{refresh_token, access_token, Payload, Db}
use mcpgate.Store.Artifacts.{put_artifact}
use mcpgate.Auth.Types.{
  Provider, invalid_client, token_error, denied_by, bad_credentials, type_error, AuthResult, ok,
  err, second, or_scopes,
}

-- What `_issue_pair` draws: `time.time()`, `token_urlsafe(18)` and `token_urlsafe(36)`.
pub record Draw : Type 0 where
  pub now : ℕ
  pub jti : String
  pub refresh : String

-- The SDK's `OAuthToken`; `token_type` is always "Bearer", `scope` is kept as the list of its words.
pub record OauthToken : Type 0 where
  pub access_token : String
  pub expires_in : ℕ
  pub scope : List String
  pub refresh_token : String

abbrev pub claims_of : Provider → ClientPolicy → String → List String → String → Draw → Claims
claims_of p client client_id scopes resource d = record {
  iss = p.settings.issuer_url;
  aud = resource;
  sub = client_id;
  iat = d.now / second;
  exp = d.now / second + p.settings.access_token_ttl;
  jti = d.jti;
  client_id = some client_id;
  scopes = some scopes;
  teams = some (sorted_set client.teams);
}

abbrev pub token_payload : List String → Option String → Payload
token_payload scopes jti = record {
  scopes = scopes;
  jti = jti;
  code_challenge = none;
  redirect_uri = none;
  redirect_uri_provided_explicitly = none;
  resource = none;
}

unfoldable pub issue_to :
    Provider
    → String
    → List String
    → String
    → Draw
    → Option ClientPolicy
    → Db
    → AuthResult OauthToken × Db
issue_to p client_id scopes resource d none db = (err (token_error invalid_client), db)
issue_to p client_id scopes resource d (some client) db =
    let claims : Claims = claims_of p client client_id scopes resource d in
    let access = p.crypto.jwt_encode claims p.settings.jwt_secret in
    (
      ok (record {
        access_token = access;
        expires_in = p.settings.access_token_ttl;
        scope = scopes;
        refresh_token = d.refresh;
      }),
      put_artifact p.crypto d.refresh refresh_token client_id (token_payload scopes none)
          ((d.now / second + p.settings.refresh_token_ttl) * second)
          (put_artifact p.crypto access access_token client_id (token_payload scopes (some d.jti))
            (claims.exp * second) db),
    )

unfoldable pub issue_pair :
    Provider → String → List String → String → Draw → Db → AuthResult OauthToken × Db
unfolding issue_to
issue_pair p client_id scopes resource d db =
    issue_to p client_id scopes resource d (Policy.client p.policy client_id) db

issue_with : Provider → String → Draw → Permission (List String) → Db → AuthResult OauthToken × Db
issue_with p client_id d (denied e) db = (err (denied_by e), db)
issue_with p client_id d (granted scopes) db =
    issue_pair p client_id scopes p.settings.resource_url d db

is_ascii : String → Bool
is_ascii String.[] = true
is_ascii (String.◌∷◌ c s) = ltb (code c) 128 && is_ascii s

-- `secrets.compare_digest` on texts: `none` is its TypeError.
unfoldable pub compare_digest : String → String → Option Bool
unfolding is_ascii
compare_digest a b = if is_ascii a && is_ascii b then some (a == b) else none

with_secret :
    Provider
    → String
    → Option (List String)
    → Draw
    → ClientPolicy
    → Option Bool
    → Db
    → AuthResult OauthToken × Db
with_secret p client_id scopes d client none db = (err type_error, db)
with_secret p client_id scopes d client (some false) db = (err bad_credentials, db)
with_secret p client_id scopes d client (some true) db =
    issue_with p client_id d
      (Policy.authorize_scopes p.policy client_id (or_scopes scopes (sorted_set client.scopes))) db

credentialed :
    Provider
    → String
    → String
    → Option (List String)
    → Draw
    → Option ClientPolicy
    → Db
    → AuthResult OauthToken × Db
credentialed p client_id secret scopes d none db = (err bad_credentials, db)
credentialed p client_id secret scopes d (some client) db =
    with_secret p client_id scopes d client (compare_digest client.secret secret) db

unfoldable pub issue_for_client :
    Provider → String → String → Option (List String) → Draw → Db → AuthResult OauthToken × Db
unfolding credentialed with_secret issue_with
issue_for_client p client_id secret scopes d db =
    credentialed p client_id secret scopes d (Policy.client p.policy client_id) db
