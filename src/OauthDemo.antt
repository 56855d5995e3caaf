-- ===== src/OauthDemo.antt =====
-- demos/oauth_flow.py: the authorization-code flow over HTTP, from discovery to an audited tool call.
-- The printed lines, and what reading a body for them may raise, are not modelled. The SDK's web
-- application is third-party code: a function from the
-- requests that the demo sends. `logging.disable` and the temporary directory have no part in it.
pub mod Web
pub mod Steps
pub mod Call
pub mod Logged
pub mod Parts
pub mod Passes
use Prim.Native.String.{◌++◌ as text_append}
use mcpgate.Prelude.{
  ℕ, String, Bool, true, false, ◌&&◌, ◌||◌, not, Option, none, some, List, [], ◌∷◌, map, nat_eq,
  leb, ◌==◌, length, if◌then◌else◌,
}
use mcpgate.Crypto.{Crypto}
use mcpgate.Policy.{Policy}
use mcpgate.Policy.Order.{sorted_set}
use mcpgate.Value.{Args}
use mcpgate.Store.{Ticket, Event, new_db}
use mcpgate.Store.Events.{audit_events}
use mcpgate.Audit.{verify_chain}
use mcpgate.Auth.Types.{Settings}
use mcpgate.Auth.Issue.{Draw}
use mcpgate.Gateway.Pipeline.{Gateway, State, Readings}
use mcpgate.Runtime.{create_runtime}

-- `CLIENT_ID`, `CLIENT_SECRET`, `REDIRECT_URI`
abbrev pub client_id : String
client_id = "operator-agent"

abbrev pub client_secret : String
client_secret = "operator-local-secret"

abbrev pub redirect_uri : String
redirect_uri = "http://127.0.0.1/callback"

-- The parameters of /authorize, beside response_type=code and code_challenge_method=S256. `scope` is kept
-- as the list of its words.
pub record Query : Type 0 where
  pub client_id : String
  pub redirect_uri : String
  pub code_challenge : String
  pub scope : List String
  pub state : String
  pub resource : String

-- The form of /token, beside grant_type=authorization_code.
pub record Form : Type 0 where
  pub code : String
  pub redirect_uri : String
  pub client_id : String
  pub client_secret : String
  pub code_verifier : String
  pub resource : String

-- The requests of the demo: its two metadata documents, `tools/list` without a token, the two OAuth
-- endpoints, and with a bearer token `initialize` and `tools/call`.
pub data HttpRequest : Type 0 where
  resource_metadata server_metadata anonymous_list : HttpRequest
  authorize_page : Query → HttpRequest
  token_page : Form → HttpRequest
  initialize : String → HttpRequest
  call_tool : String → String → Args → HttpRequest

-- What the demo reads of a response: the status, the `code` in the query of the location header, the
-- `access_token` of the JSON body, its `["result"]["structuredContent"]["result"]`; `none` is a missing
-- header or key.
pub record HttpResponse : Type 0 where
  pub status : ℕ
  pub code : Option String
  pub access_token : Option String
  pub tickets : Option (List Ticket)

-- What the server reads from outside while it answers: its clock, and again when it writes; a new
-- authorization code; the draws of new tokens; the readings of a tool's call.
pub record Turn : Type 0 where
  pub now : ℕ
  pub later : ℕ
  pub code : String
  pub draw : Draw
  pub readings : Readings

-- `server.streamable_http_app()`
abbrev pub Web : Type 0
Web = HttpRequest → Turn → State → HttpResponse × State

-- The two verifiers that `pkce` draws.
pub record Verifiers : Type 0 where
  pub first : String
  pub other : String

pub record Turns : Type 0 where
  pub resource_turn : Turn
  pub server_turn : Turn
  pub anonymous_turn : Turn
  pub authorize_turn : Turn
  pub token_turn : Turn
  pub replay_turn : Turn
  pub second_turn : Turn
  pub mismatch_turn : Turn
  pub initialize_turn : Turn
  pub call_turn : Turn

abbrev pub query : String → List String → String → String → Query
query challenge scope state resource = record {
  client_id = client_id;
  redirect_uri = redirect_uri;
  code_challenge = challenge;
  scope = scope;
  state = state;
  resource = resource;
}

abbrev pub form : String → String → String → Form
form code verifier resource = record {
  code = code;
  redirect_uri = redirect_uri;
  client_id = client_id;
  client_secret = client_secret;
  code_verifier = verifier;
  resource = resource;
}

-- `.get("code", [""])[0]`, `.get("access_token", "")`
abbrev pub or_empty : Option String → String
or_empty none = ""
or_empty (some s) = s

-- `status_code in (302, 307) and bool(code)`
is_redirect : HttpResponse → Bool
is_redirect r = (nat_eq r.status 302 || nat_eq r.status 307) && not (or_empty r.code == "")

-- `status_code == 200 and bool(access_token)`
is_issued : HttpResponse → Bool
is_issued r = nat_eq r.status 200 && not (or_empty r.access_token == "")

-- `xs == ys` on lists of texts
same_texts : List String → List String → Bool
same_texts [] [] = true
same_texts (x ∷ xs) (y ∷ ys) = (x == y) && same_texts xs ys
same_texts _ _ = false

-- `sorted({ticket["team"] for ticket in tickets}) == ["alpha", "beta"]`
unfoldable pub shows_both_teams : List Ticket → Bool
unfolding same_texts
shows_both_teams tickets =
    same_texts (sorted_set (map (λ t. t.team) tickets)) ("alpha" ∷ "beta" ∷ [])

-- Part 8. `recorded[0]` of an empty list is an IndexError.
logged : Gateway → State → Bool → List Event → Option Bool
logged g s ok [] = none
logged g s ok (e ∷ events) =
    some (ok && (verify_chain g.provider.crypto g.audit_key s.db && leb 1 (length (e ∷ events))))

shown : Gateway → State → Bool → Option (List Ticket) → Option Bool
unfolding logged
shown g s ok none = none
shown g s ok (some tickets) =
    logged g s (ok && shows_both_teams tickets) (audit_events none 10 none s.db)

-- Part 7.
pub call_part : Gateway → Web → Turns → String → Bool → State → Option Bool
unfolding shown
call_part g web turns access ok s =
    let (greeting, s1) = web (initialize access) turns.initialize_turn s in
    let (call, s2) = web (call_tool access "list_tickets" []) turns.call_turn s1 in
    shown g s2 ok call.tickets

-- Part 6, from the second code. `["code"][0]` of a missing key is a KeyError.
pub mismatch_part :
    Gateway → Web → Verifiers → Turns → String → String → Bool → Option String → State → Option Bool
unfolding call_part
mismatch_part g web v turns url access ok none s = none
mismatch_part g web v turns url access ok (some code) s =
    let (mismatched, s1) =
      web (token_page (form code (text_append v.other "tampered") url)) turns.mismatch_turn s in
    call_part g web turns access (ok && nat_eq mismatched.status 400) s1

-- Parts 3 to 6: `s256` is the challenge of a verifier, base64 of its SHA-256 without the padding.
pub token_part : (String → String) → Gateway → Web → Verifiers → Turns → Bool → State → Option Bool
unfolding mismatch_part is_redirect is_issued
token_part s256 g web v turns ok s =
    let url = g.provider.settings.resource_url in
    let (page, s1) =
      web
        (authorize_page
          (query (s256 v.first) ("tickets:read" ∷ "tickets:write" ∷ []) "demo-state" url))
        turns.authorize_turn s in
    let code = or_empty page.code in
    let (issued, s2) = web (token_page (form code v.first url)) turns.token_turn s1 in
    let access = or_empty issued.access_token in
    let (replay, s3) = web (token_page (form code v.first url)) turns.replay_turn s2 in
    let (second, s4) =
      web (authorize_page (query (s256 v.other) ("tickets:read" ∷ []) "s2" url)) turns.second_turn
        s3 in
    mismatch_part g web v turns url access
      (ok && (is_redirect page && (is_issued issued && nat_eq replay.status 400))) second.code s4

-- Parts 1 and 2, and the rest.
unfoldable pub run_flow :
    (String → String) → Gateway → Web → Verifiers → Turns → State → Option Bool
unfolding token_part
run_flow s256 g web v turns s =
    let (resource, s1) = web resource_metadata turns.resource_turn s in
    let (metadata, s2) = web server_metadata turns.server_turn s1 in
    let (anonymous, s3) = web anonymous_list turns.anonymous_turn s2 in
    token_part s256 g web v turns
      (nat_eq resource.status 200 && (nat_eq metadata.status 200 && nat_eq anonymous.status 401)) s3

exit_status : Option Bool → Option ℕ
exit_status none = none
exit_status (some ok) = some (if ok then 0 else 1)

in_runtime :
    (String → String) → (Gateway → Web) → Verifiers → Turns → Option (Gateway × State) → Option ℕ
unfolding exit_status
in_runtime s256 web v turns none = none
in_runtime s256 web v turns (some (g, s)) = exit_status (run_flow s256 g (web g) v turns s)

-- `main`: `none` is an exception. `web g` is the application of the server of a gateway.
unfoldable pub oauth_flow :
    (String → String)
    → (Gateway → Web)
    → Crypto
    → Policy
    → Settings
    → ℕ
    → ℕ
    → ℕ
    → Verifiers
    → Turns
    → Option ℕ
unfolding in_runtime
oauth_flow s256 web c p settings capacity rate now v turns =
    in_runtime s256 web v turns (create_runtime c p settings capacity rate now new_db)
