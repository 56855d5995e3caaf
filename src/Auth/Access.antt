-- ===== src/Auth/Access.antt =====
-- src/mcpgate/auth.py: `load_access_token` and `revoke_token`.
pub mod Accepted
use mcpgate.Prelude.{
  ℕ, String, Bool, true, false, not, Option, none, some, List, ◌==◌, if◌then◌else◌,
}
use mcpgate.Policy
use mcpgate.Crypto.{Claims}
use mcpgate.Store.{access_token, Db}
use mcpgate.Store.Artifacts.{Found, get_artifact, revoke_artifact}
use mcpgate.Auth.Types.{Provider, AuthResult, ok, entry, ◌>>=◌}

-- The SDK's `AccessToken`; of its claims the two that the gateway reads. `claims` is None only in a token
-- that this program does not make.
pub record TokenClaims : Type 0 where
  pub teams : Option (List String)
  pub jti : Option String

pub record AccessToken : Type 0 where
  pub token : String
  pub client_id : String
  pub scopes : List String
  pub expires_at : ℕ
  pub resource : String
  pub subject : String
  pub claims : TokenClaims

-- `artifact.get("jti") != claims["jti"]`
jti_differs : Option String → String → Bool
jti_differs none jti = true
jti_differs (some j) jti = not (j == jti)

access_of : Provider → String → Claims → AuthResult (Option AccessToken)
access_of p token claims = do
  client_id ← entry claims.client_id
  scopes ← entry claims.scopes
  ok (
      some (record {
        token = token;
        client_id = client_id;
        scopes = scopes;
        expires_at = claims.exp;
        resource = p.settings.resource_url;
        subject = claims.sub;
        claims = record { teams = claims.teams; jti = some claims.jti };
      }))

checked_access : Provider → String → Claims → Option Found → AuthResult (Option AccessToken)
checked_access p token claims none = ok none
checked_access p token claims (some f) =
    if jti_differs f.payload.jti claims.jti then ok none else access_of p token claims

decoded_access : Provider → String → ℕ → Db → Option Claims → AuthResult (Option AccessToken)
decoded_access p token now db none = ok none
decoded_access p token now db (some claims) =
    checked_access p token claims (get_artifact p.crypto token access_token false now db).0

-- `now` is the time that `jwt.decode` reads, `later` the one that `get_artifact` reads.
unfoldable pub load_access_token : Provider → String → ℕ → ℕ → Db → AuthResult (Option AccessToken)
unfolding decoded_access checked_access access_of jti_differs
load_access_token p token now later db = decoded_access p token later db (
    p.crypto.jwt_decode token p.settings.jwt_secret p.settings.resource_url p.settings.issuer_url
      now)

unfoldable pub revoke_token : Provider → String → Db → Db
revoke_token p token db = revoke_artifact p.crypto token db
