-- ===== src/Tests/Web.antt =====
-- A toy web application that keeps the laws the OAuth demo relies on, around a toy SDK.
use mcpgate.Prelude.{
  ℕ, String, ◌≡◌, refl, ap, Option, none, some, ◌==◌, ==_iff, ==_ne, if◌then◌else◌,
}
use mcpgate.Store.{Db}
use mcpgate.Value.{Args}
use mcpgate.Auth.Types.{AuthResult, ok, err, ClientInfo, Redirect}
use mcpgate.Auth.Authorize.{get_client, authorize, AuthorizationCode, load_authorization_code}
use mcpgate.Auth.Issue.{OauthToken}
use mcpgate.Auth.Exchange.{exchange_authorization_code}
use mcpgate.Auth.Access.{AccessToken, load_access_token}
use mcpgate.Gateway.Dispatch.{rows, row, events}
use mcpgate.Gateway.Pipeline.{Gateway, State}
use mcpgate.Server.Calls.{Answer, replied, failed, audited_call_tool}
use mcpgate.OauthDemo.{
  Query, Form, resource_metadata, server_metadata, anonymous_list, authorize_page, token_page,
  initialize, call_tool, HttpResponse, Turn, Web,
}
use mcpgate.OauthDemo.Web.{params_of, tool_request, IsOpen, IsAuthorizing, IsServing, IsSdk}
use mcpgate.Tests.Server.{sdk, sdk-IsRewrapping}

abbrev bare : ℕ → HttpResponse
bare n = record { status = n; code = none; access_token = none; tickets = none }

abbrev redirected : State → AuthResult Redirect × Db → HttpResponse × State
redirected s (err e, db) = (bare 400, record s { db = db })
redirected s (ok r, db) = (record (bare 302) { code = some r.code }, record s { db = db })

abbrev paged : Gateway → Query → Turn → State → Option ClientInfo → HttpResponse × State
paged g q t s none = (bare 400, s)
paged g q t s (some client) =
    redirected s (authorize g.provider client (params_of q) t.code t.now s.db)

abbrev paid : State → AuthResult OauthToken × Db → HttpResponse × State
paid s (err e, db) = (bare 400, record s { db = db })
paid s (ok pair, db) =
    (record (bare 200) { access_token = some pair.access_token }, record s { db = db })

abbrev proved :
    Gateway
    → Form
    → Turn
    → State
    → ClientInfo
    → AuthResult (Option AuthorizationCode)
    → HttpResponse × State
proved g f t s client (err e) = (bare 500, s)
proved g f t s client (ok none) = (bare 400, s)
proved g f t s client (ok (some code)) =
    if f.code_verifier == code.code_challenge
    then paid s (exchange_authorization_code g.provider client f.code t.later t.draw s.db)
    else (bare 400, s)

abbrev token_answered : Gateway → Form → Turn → State → Option ClientInfo → HttpResponse × State
token_answered g f t s none = (bare 401, s)
token_answered g f t s (some client) =
    if client.client_secret == f.client_secret
    then proved g f t s client (load_authorization_code g.provider client f.code t.now s.db)
    else (bare 401, s)

abbrev sent : Answer × State → HttpResponse × State
sent (replied (rows tickets), s) = (record (bare 200) { tickets = some tickets }, s)
sent (replied (row t), s) = (bare 200, s)
sent (replied (events e), s) = (bare 200, s)
sent (failed errors i, s) = (bare 200, s)

abbrev handled :
    Gateway
    → String
    → String
    → Args
    → Turn
    → State
    → AuthResult (Option AccessToken)
    → HttpResponse × State
handled g token name args t s (err e) = (bare 500, s)
handled g token name args t s (ok none) = (bare 401, s)
handled g token name args t s (ok (some access)) =
    sent (audited_call_tool sdk g (tool_request token access name args) t.readings t.later s)

abbrev pub toy_web : Gateway → Web
toy_web g resource_metadata t s = (bare 200, s)
toy_web g server_metadata t s = (bare 200, s)
toy_web g anonymous_list t s = (bare 401, s)
toy_web g (authorize_page q) t s = paged g q t s (get_client g.provider q.client_id)
toy_web g (token_page f) t s = token_answered g f t s (get_client g.provider f.client_id)
toy_web g (initialize token) t s = (bare 200, s)
toy_web g (call_tool token name args) t s =
    handled g token name args t s (load_access_token g.provider token t.now t.now s.db)

redirected_ok :
    (s : State) (o : AuthResult Redirect × Db) (r : Redirect)
    → o.0 ≡ ok r
    → redirected s o ≡ (record (bare 302) { code = some r.code }, record s { db = o.1 })
redirected_ok s (a, db) r h = ap (λ x. redirected s (x, db)) h

paid_ok :
    (s : State) (o : AuthResult OauthToken × Db) (pair : OauthToken)
    → o.0 ≡ ok pair
    → paid s o
      ≡ (record (bare 200) { access_token = some pair.access_token }, record s { db = o.1 })
paid_ok s (a, db) pair h = ap (λ x. paid s (x, db)) h

module _ (g : Gateway) where
  toy-IsOpen : IsOpen (λ s. s) g (toy_web g)
  toy-IsOpen = record {
    resource_described = λ t s. (bare 200, refl, refl);
    server_described = λ t s. (bare 200, refl, refl);
    challenged = λ t s. (bare 401, refl, refl);
  }

  toy-IsAuthorizing : IsAuthorizing (λ s. s) g (toy_web g)
  toy-IsAuthorizing = record {
    redirects = λ q t s client redirect known uri scope answer. (
      record (bare 302) { code = some redirect.code },
      rw known (
          redirected_ok s (authorize g.provider client (params_of q) t.code t.now s.db) redirect
            answer),
      refl,
      refl,
    );
    exchanges = λ f t s client code pair auth loads proof uri answer. (
      record (bare 200) { access_token = some pair.access_token },
      rw (auth.0, auth.1, loads, (==_iff f.code_verifier code.code_challenge).1 proof)
          (paid_ok s (exchange_authorization_code g.provider client f.code t.later t.draw s.db) pair
            answer),
      refl,
      refl,
    );
    unknown_refused = λ f t s client auth loads. (bare 400, rw (auth.0, auth.1, loads) refl, refl);
    unproven_refused = λ f t s client code auth loads other. (
      bare 400,
      rw (auth.0, auth.1, loads, ==_ne f.code_verifier code.code_challenge other) refl,
      refl,
    );
  }

  toy-IsServing : IsServing (λ s. s) g (toy_web g) sdk
  toy-IsServing = record {
    greets = λ token t s access loads live. (bare 200, refl);
    answers = λ token name args t s s' access tickets loads live answer.
        (record (bare 200) { tickets = some tickets }, rw loads (ap sent answer), refl);
  }

  pub toy-IsSdk : IsSdk (λ s. s) g (toy_web g)
  unfolding ◌==◌
  toy-IsSdk = record {
    sdk = sdk;
    rewrapping = sdk-IsRewrapping;
    defaults = refl;
    is_open = toy-IsOpen;
    authorizing = toy-IsAuthorizing;
    serving = toy-IsServing;
  }
