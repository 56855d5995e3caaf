-- ===== src/OauthDemo/Web.antt =====
-- What the demo relies on in the SDK: how its web application uses the program's callbacks.
use mcpgate.Prelude.{◌*◌, String, ◌≡◌, ◌≢◌, true, none, some, List, [], ◌==◌, is_subset, ltb}
use mcpgate.Store.{Ticket}
use mcpgate.Auth.Words.{split}
use mcpgate.Auth.Types.{ok, second, ClientInfo, Params, Redirect}
use mcpgate.Auth.Authorize.{get_client, authorize, AuthorizationCode, load_authorization_code}
use mcpgate.Auth.Issue.{OauthToken}
use mcpgate.Auth.Exchange.{exchange_authorization_code}
use mcpgate.Auth.Access.{AccessToken, load_access_token}
use mcpgate.Gateway.Dispatch.{rows}
use mcpgate.Gateway.Pipeline.{Gateway, State}
use mcpgate.Value.{Args}
use mcpgate.Server.Tools.{list_tickets}
use mcpgate.Server.Calls.{calls, replied, Sdk, Request, audited_call_tool}
use mcpgate.Server.Calls.Once.{IsRewrapping}
use mcpgate.OauthDemo.{
  redirect_uri, Query, Form, resource_metadata, server_metadata, anonymous_list, authorize_page,
  token_page, initialize, call_tool, HttpResponse, Turn, Web,
}

-- `AuthorizationParams` of a query.
abbrev pub params_of : Query → Params
params_of q = record {
  scopes = some q.scope;
  state = some q.state;
  code_challenge = q.code_challenge;
  redirect_uri = q.redirect_uri;
  redirect_uri_provided_explicitly = true;
  resource = some q.resource;
}

-- A `tools/call` of an authenticated client; its JSON-RPC id is 2.
abbrev pub tool_request : String → AccessToken → String → Args → Request
tool_request token access name args = record {
  name = name;
  arguments = some args;
  caller = some (record { token = token; client_id = access.client_id });
  request_id = some "2";
}

module _ (s256 : String → String) (g : Gateway) (web : Web) where
  -- A client authenticates itself at /token by the secret that the provider knows of it.
  abbrev pub Authenticates : Form → ClientInfo → Type 0
  Authenticates f client =
      (get_client g.provider f.client_id ≡ some client)
      × ((client.client_secret == f.client_secret) ≡ true)

  -- The two metadata documents are served to everybody, a call without a token is answered by 401.
  pub record IsOpen : Type 0 where
    pub resource_described :
        (t : Turn) (s : State)
        → (r : HttpResponse) × (web resource_metadata t s ≡ (r, s)) × (r.status ≡ 200)
    pub server_described :
        (t : Turn) (s : State)
        → (r : HttpResponse) × (web server_metadata t s ≡ (r, s)) × (r.status ≡ 200)
    pub challenged :
        (t : Turn) (s : State)
        → (r : HttpResponse) × (web anonymous_list t s ≡ (r, s)) × (r.status ≡ 401)

  -- /authorize calls the provider for a known client, its registered URI and scopes that it may have, and
  -- redirects to what the provider answers. /token loads the code, refuses one that the provider does not
  -- load and one whose challenge is not that of the verifier, and else has the provider exchange it.
  pub record IsAuthorizing : Type 0 where
    pub redirects :
        (q : Query) (t : Turn) (s : State) (client : ClientInfo) (redirect : Redirect)
        → get_client g.provider q.client_id ≡ some client
        → q.redirect_uri ≡ redirect_uri
        → is_subset q.scope (split client.scope) ≡ true
        → (authorize g.provider client (params_of q) t.code t.now s.db).0 ≡ ok redirect
        → (r : HttpResponse) × (web (authorize_page q) t s ≡ (
          r,
          record s { db = (authorize g.provider client (params_of q) t.code t.now s.db).1 },
        ))
          × (r.status ≡ 302)
          × (r.code ≡ some redirect.code)
    pub exchanges :
        (f : Form) (t : Turn) (s : State) (client : ClientInfo) (code : AuthorizationCode)
        (pair : OauthToken)
        → Authenticates f client
        → load_authorization_code g.provider client f.code t.now s.db ≡ ok (some code)
        → s256 f.code_verifier ≡ code.code_challenge
        → f.redirect_uri ≡ code.redirect_uri
        → (exchange_authorization_code g.provider client f.code t.later t.draw s.db).0 ≡ ok pair
        → (r : HttpResponse) × (web (token_page f) t s ≡ (
          r,
          record s {
            db = (exchange_authorization_code g.provider client f.code t.later t.draw s.db).1;
          },
        ))
          × (r.status ≡ 200)
          × (r.access_token ≡ some pair.access_token)
    pub unknown_refused :
        (f : Form) (t : Turn) (s : State) (client : ClientInfo)
        → Authenticates f client
        → load_authorization_code g.provider client f.code t.now s.db ≡ ok none
        → (r : HttpResponse) × (web (token_page f) t s ≡ (r, s)) × (r.status ≡ 400)
    pub unproven_refused :
        (f : Form) (t : Turn) (s : State) (client : ClientInfo) (code : AuthorizationCode)
        → Authenticates f client
        → load_authorization_code g.provider client f.code t.now s.db ≡ ok (some code)
        → s256 f.code_verifier ≢ code.code_challenge
        → (r : HttpResponse) × (web (token_page f) t s ≡ (r, s)) × (r.status ≡ 400)

  -- With a bearer token that the provider loads and that has not expired, `initialize` is answered and
  -- changes nothing, and `tools/call` goes to the server's handler; a reply of it is sent as it is.
  pub record IsServing (sdk : Sdk) : Type 0 where
    pub greets :
        (token : String) (t : Turn) (s : State) (access : AccessToken)
        → load_access_token g.provider token t.now t.now s.db ≡ ok (some access)
        → ltb t.now (access.expires_at * second) ≡ true
        → (r : HttpResponse) × (web (initialize token) t s ≡ (r, s))
    pub answers :
        (token name : String) (args : Args) (t : Turn) (s s' : State) (access : AccessToken)
        (tickets : List Ticket)
        → load_access_token g.provider token t.now t.now s.db ≡ ok (some access)
        → ltb t.now (access.expires_at * second) ≡ true
        → audited_call_tool sdk g (tool_request token access name args) t.readings t.later s
          ≡ (replied (rows tickets), s')
        → (r : HttpResponse) × (web (call_tool token name args) t s ≡ (r, s'))
          × (r.tickets ≡ some tickets)

  -- The SDK: `list_tickets` without arguments is a call of the tool with its default.
  pub record IsSdk : Type 0 where
    pub sdk : Sdk
    pub rewrapping : IsRewrapping sdk
    pub defaults : sdk.plan "list_tickets" (some []) ≡ calls (list_tickets none)
    pub is_open : IsOpen
    pub authorizing : IsAuthorizing
    pub serving : IsServing sdk
