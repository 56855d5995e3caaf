-- ===== src/Server/Options.antt =====
-- src/mcpgate/server.py: what `create_server` tells the SDK of the server that it makes.
pub mod Announced
use mcpgate.Prelude.{String, Bool, true, false, List, [], ◌∷◌, ◌++◌, ℤ}
use mcpgate.Policy.{ClientPolicy, Policy}
use mcpgate.Policy.Order.{sorted_set}
use mcpgate.Config.{Settings}
use mcpgate.Auth.Types.{Provider}
use mcpgate.Gateway.Pipeline.{Gateway}

all_scopes : List (String × ClientPolicy) → List String
all_scopes [] = []
all_scopes ((k, c) ∷ clients) = c.scopes ++ all_scopes clients

-- The scopes that the authorization server announces.
unfoldable pub valid_scopes : Policy → List String
unfolding all_scopes
valid_scopes p = sorted_set (all_scopes p.clients)

-- `ClientRegistrationOptions`, `RevocationOptions`
pub record Registration : Type 0 where
  pub enabled : Bool
  pub scopes : List String

-- `AuthSettings`
pub record AuthSettings : Type 0 where
  pub issuer_url : String
  pub resource_server_url : String
  pub client_registration_options : Registration
  pub revocation_enabled : Bool

-- The arguments of `FastMCP`, without the instructions.
pub record ServerOptions : Type 0 where
  pub name : String
  pub host : String
  pub port : ℤ
  pub streamable_http_path : String
  pub stateless_http : Bool
  pub json_response : Bool
  pub auth_server_provider : Provider
  pub auth : AuthSettings

unfoldable pub server_options {ℓ} : {F : Type ℓ} → Settings F → Gateway → ServerOptions
server_options settings g = record {
  name = "MCPGate";
  host = settings.host;
  port = settings.port;
  streamable_http_path = "/mcp";
  stateless_http = true;
  json_response = true;
  auth_server_provider = g.provider;
  auth = record {
    issuer_url = settings.issuer_url;
    resource_server_url = settings.resource_url;
    client_registration_options = record { enabled = false; scopes = valid_scopes g.policy };
    revocation_enabled = true;
  };
}
