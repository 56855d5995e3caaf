-- ===== src/Auth/Exchange.antt =====
-- src/mcpgate/auth.py: `exchange_authorization_code`, `load_refresh_token`, `exchange_refresh_token`.
pub mod SingleUse
pub mod Narrowing
pub mod Redeemed
use mcpgate.Prelude.{
  ℕ, ◌/◌, String, true, false, not, Option, none, some, List, ◌==◌, is_subset, if◌then◌else◌,
}
use mcpgate.Policy
use mcpgate.Policy.{Policy, Permission, granted, denied}
use mcpgate.Store.{authorization_code, refresh_token, Db}
use mcpgate.Store.Artifacts.{Found, get_artifact}
use mcpgate.Auth.Types.{
  Provider, invalid_scope, invalid_grant, token_error, key_error, AuthResult, err, second,
  ClientInfo, or_scopes,
}
use mcpgate.Auth.Issue.{Draw, OauthToken, issue_pair}

-- `payload["resource"]` is read when the code is consumed already.
issue_for_code : Provider → Found → Draw → Option String → Db → AuthResult OauthToken × Db
issue_for_code p f d none db = (err key_error, db)
issue_for_code p f d (some resource) db = issue_pair p f.client_id f.payload.scopes resource d db

redeem_code : Provider → ClientInfo → Draw → Option Found × Db → AuthResult OauthToken × Db
redeem_code p client d (none, db) = (err (token_error invalid_grant), db)
redeem_code p client d (some f, db) =
    if not (f.client_id == client.client_id)
    then (err (token_error invalid_grant), db)
    else issue_for_code p f d f.payload.resource db

unfoldable pub exchange_authorization_code :
    Provider → ClientInfo → String → ℕ → Draw → Db → AuthResult OauthToken × Db
unfolding redeem_code issue_for_code
exchange_authorization_code p client code now d db =
    redeem_code p client d (get_artifact p.crypto code authorization_code true now db)

-- The SDK's `RefreshToken`; its expiry is in whole seconds.
pub record RefreshToken : Type 0 where
  pub token : String
  pub client_id : String
  pub scopes : List String
  pub expires_at : ℕ
  pub subject : String

owned_refresh : ClientInfo → String → Option Found → Option RefreshToken
owned_refresh client token none = none
owned_refresh client token (some f) =
    if not (f.client_id == client.client_id)
    then none
    else some (record {
      token = token;
      client_id = f.client_id;
      scopes = f.payload.scopes;
      expires_at = f.expires_at / second;
      subject = f.client_id;
    })

unfoldable pub load_refresh_token : Provider → ClientInfo → String → ℕ → Db → Option RefreshToken
unfolding owned_refresh
load_refresh_token p client token now db =
    owned_refresh client token (get_artifact p.crypto token refresh_token false now db).0

reissue : Provider → Found → Draw → Permission (List String) → Db → AuthResult OauthToken × Db
reissue p f d (denied e) db = (err (token_error invalid_scope), db)
reissue p f d (granted scopes) db = issue_pair p f.client_id scopes p.settings.resource_url d db

rotate : Provider → ClientInfo → List String → Draw → Option Found × Db → AuthResult OauthToken × Db
rotate p client scopes d (none, db) = (err (token_error invalid_grant), db)
rotate p client scopes d (some f, db) =
    let requested = or_scopes (some scopes) f.payload.scopes in
    if not (f.client_id == client.client_id)
    then (err (token_error invalid_grant), db)
    else if not (is_subset requested f.payload.scopes)
    then (err (token_error invalid_scope), db)
    else reissue p f d (Policy.authorize_scopes p.policy f.client_id requested) db

unfoldable pub exchange_refresh_token :
    Provider → ClientInfo → String → List String → ℕ → Draw → Db → AuthResult OauthToken × Db
unfolding rotate reissue
exchange_refresh_token p client token scopes now d db =
    rotate p client scopes d (get_artifact p.crypto token refresh_token true now db)
