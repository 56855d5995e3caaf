-- ===== src/Auth/Authorize.antt =====
-- src/mcpgate/auth.py: clients, `authorize`, `load_authorization_code`.
pub mod Codes
use mcpgate.Prelude.{
  ℕ, ◌+◌, ◌*◌, String, Bool, false, not, Option, none, some, List, ◌==◌, if◌then◌else◌,
}
use mcpgate.Policy
use mcpgate.Policy.{Policy, ClientPolicy, Permission, granted, denied}
use mcpgate.Policy.Order.{sorted_set}
use mcpgate.Store.{authorization_code, Payload, Db}
use mcpgate.Store.Artifacts.{Found, put_artifact, get_artifact}
use mcpgate.Auth.Words.{split, join}
use mcpgate.Auth.Types.{
  Provider, invalid_scope, invalid_request, authorize_error, registration_disabled, AuthResult, ok,
  err, ◌>>=◌, entry, second, ClientInfo, Params, Redirect, or_scopes, is_foreign, or_resource,
}

info_of : Option ClientPolicy → Option ClientInfo
info_of none = none
info_of (some c) = some (record {
  client_id = c.client_id;
  client_secret = c.secret;
  scope = join (sorted_set c.scopes);
})

unfoldable pub get_client : Provider → String → Option ClientInfo
unfolding info_of
get_client p client_id = info_of (Policy.client p.policy client_id)

-- Dynamic registration is disabled.
unfoldable pub register_client : ClientInfo → AuthResult (Unit {0})
register_client info = err registration_disabled

abbrev pub code_payload : Provider → Params → List String → Payload
code_payload p params scopes = record {
  scopes = scopes;
  jti = none;
  code_challenge = some params.code_challenge;
  redirect_uri = some params.redirect_uri;
  redirect_uri_provided_explicitly = some params.redirect_uri_provided_explicitly;
  resource = some (or_resource params.resource p.settings.resource_url);
}

-- `authorize` after the policy's answer.
store_code :
    Provider
    → ClientInfo
    → Params
    → String
    → ℕ
    → Permission (List String)
    → Db
    → AuthResult Redirect × Db
store_code p client params code now (denied d) db = (err (authorize_error invalid_scope), db)
store_code p client params code now (granted scopes) db =
    if is_foreign params.resource p.settings.resource_url
    then (err (authorize_error invalid_request), db)
    else (
      ok (record { uri = params.redirect_uri; code = code; state = params.state }),
      put_artifact p.crypto code authorization_code client.client_id (code_payload p params scopes)
          (now + 120 * second) db,
    )

-- `code` is `secrets.token_urlsafe(32)`.
unfoldable pub authorize :
    Provider → ClientInfo → Params → String → ℕ → Db → AuthResult Redirect × Db
unfolding store_code
authorize p client params code now db =
    store_code p client params code now
      (Policy.authorize_scopes p.policy client.client_id
        (or_scopes params.scopes (split client.scope)))
      db

-- The SDK's `AuthorizationCode`.
pub record AuthorizationCode : Type 0 where
  pub code : String
  pub scopes : List String
  pub expires_at : ℕ
  pub client_id : String
  pub code_challenge : String
  pub redirect_uri : String
  pub redirect_uri_provided_explicitly : Bool
  pub resource : String
  pub subject : String

code_of : String → Found → AuthResult AuthorizationCode
code_of code f = do
  challenge ← entry f.payload.code_challenge
  uri ← entry f.payload.redirect_uri
  explicit ← entry f.payload.redirect_uri_provided_explicitly
  resource ← entry f.payload.resource
  ok (record {
    code = code;
    scopes = f.payload.scopes;
    expires_at = f.expires_at;
    client_id = f.client_id;
    code_challenge = challenge;
    redirect_uri = uri;
    redirect_uri_provided_explicitly = explicit;
    resource = resource;
    subject = f.client_id;
  })

pub owned_code : ClientInfo → String → Option Found → AuthResult (Option AuthorizationCode)
owned_code client code none = ok none
owned_code client code (some f) =
    if not (f.client_id == client.client_id) then ok none else (code_of code f >>= λ a. ok (some a))

unfoldable pub load_authorization_code :
    Provider → ClientInfo → String → ℕ → Db → AuthResult (Option AuthorizationCode)
unfolding owned_code code_of
load_authorization_code p client code now db =
    owned_code client code (get_artifact p.crypto code authorization_code false now db).0
