-- ===== src/Tests/World.antt =====
-- A small deployment: two clients, three tools, two tickets, one access token, toy cryptography.
use mcpgate.Prelude.{
  ℕ, ◌*◌, String, true, false, none, some, List, [], ◌∷◌, pos, ◌==◌, if◌then◌else◌, ◌≡◌, ◌≤◌, ◌&&◌,
  leb, ltb, Option, arith,
}
use mcpgate.Store.Events.{genesis}
use mcpgate.Value.{Value, Fields, compact, Cell, Message}
use mcpgate.Crypto.{Crypto, Claims}
use mcpgate.Policy.{ClientPolicy, ToolPolicy, Policy}
use mcpgate.RateLimit.{Limiter}
use mcpgate.Store.{
  Ticket, Kind, authorization_code, refresh_token, access_token, Payload, Artifact, Event, Db,
}
use mcpgate.Audit.{Entry}
use mcpgate.Auth.Types.{Provider, ClientInfo, second}
use mcpgate.Auth.Issue.{Draw}
use mcpgate.Gateway.Pipeline.{Invocation, Gateway, State, Readings}

-- The claims that the toy JWT library knows under the token "jwt".
abbrev pub claims : Claims
claims = record {
  iss = "iss";
  aud = "url";
  sub = "ann";
  iat = 1;
  exp = 901;
  jti = "j1";
  client_id = some "ann";
  scopes = some ("tickets:read" ∷ []);
  teams = some ("alpha" ∷ []);
}

-- The last text of a message: of an event's, its tool.
abbrev pub toy_hmac : Message → String
toy_hmac [] = ""
toy_hmac ((name, Cell.written s) ∷ []) = s
toy_hmac (cell ∷ rest) = toy_hmac rest

-- What PyJWT makes of a token with these claims, from their `iat` on and before their `exp`.
abbrev pub while_live : Claims → ℕ → Option Claims
while_live c now = if leb (c.iat * second) now && ltb now (c.exp * second) then some c else none

pub live-while_live :
    (c : Claims) (now : ℕ)
    → c.iat * second ≤ now
    → ltb now (c.exp * second) ≡ true
    → while_live c now ≡ some c
live-while_live c now begun early = ground (arith, begun, early)

abbrev pub crypto : Crypto
crypto = record {
  sha256 = λ s. s;
  sha256_json = λ j. "digest";
  hmac_sha256 = λ key m. toy_hmac m;
  jwt_encode = λ c secret. "jwt";
  jwt_decode = λ token secret aud iss now. if token == "jwt" then some claims else none;
}

abbrev pub ann : ClientPolicy
ann = record {
  client_id = "ann";
  secret = "s1";
  scopes = "tickets:read" ∷ [];
  teams = "alpha" ∷ [];
}

abbrev pub bob : ClientPolicy
bob = record {
  client_id = "bob";
  secret = "s2";
  scopes = "tickets:read" ∷ "tickets:write" ∷ [];
  teams = "beta" ∷ [];
}

abbrev pub get_rule : ToolPolicy
get_rule = record { name = "get_ticket"; scope = "tickets:read"; action = "read" }

abbrev pub policy : Policy
policy = record {
  clients = ("ann", ann) ∷ ("bob", bob) ∷ [];
  tools =
      ("get_ticket", get_rule)
      ∷ (
        "create_ticket",
        record { name = "create_ticket"; scope = "tickets:write"; action = "write" },
      )
      ∷ [];
}

abbrev pub provider : Provider
provider = record {
  crypto = crypto;
  policy = policy;
  settings = record {
    issuer_url = "iss";
    resource_url = "url";
    jwt_secret = "k";
    access_token_ttl = 900;
    refresh_token_ttl = 86_400;
  };
}

abbrev pub limiter : Limiter
limiter = record { capacity = 2_000_000_000_000; refill_per_second = 1_000_000 }

abbrev pub alpha_ticket : Ticket
alpha_ticket = record {
  id = 1;
  team = "alpha";
  title = "t";
  body = "b";
  status = "open";
  created_by = "seed";
  created_at = 0;
  updated_at = 0;
}

abbrev pub beta_ticket : Ticket
beta_ticket = record {
  id = 2;
  team = "beta";
  title = "u";
  body = "c";
  status = "open";
  created_by = "seed";
  created_at = 0;
  updated_at = 0;
}

abbrev pub payload : Payload
payload = record {
  scopes = "tickets:read" ∷ [];
  jti = some "j1";
  code_challenge = some "challenge";
  redirect_uri = some "uri";
  redirect_uri_provided_explicitly = some true;
  resource = some "url";
}

-- Ann's artifact of a kind under a token.
abbrev pub artifact : String → Kind → Artifact
artifact token kind = record {
  digest = token;
  kind = kind;
  client_id = "ann";
  payload = payload;
  expires_at = 901 * second;
  consumed = false;
  revoked = false;
}

abbrev pub db : Db
db = record {
  tickets = alpha_ticket ∷ beta_ticket ∷ [];
  last_ticket_id = 2;
  artifacts =
      artifact "jwt" access_token
      ∷ artifact "code" authorization_code
      ∷ artifact "old" refresh_token
      ∷ [];
  events = [];
  last_sequence = 0;
}

abbrev pub gateway : Gateway
gateway = record { policy = policy; provider = provider; limiter = limiter; audit_key = "a" }

abbrev pub state : State
state = record { db = db; buckets = [] }

abbrev pub readings : Readings
readings = record {
  decode_now = 5;
  artifact_now = 6;
  bucket_now = 7;
  write_now = 8;
  audit_now = 9;
  latency_ms = 1;
  fresh_id = "f";
}

-- Ann reads a ticket.
abbrev pub reading : ℕ → Invocation
reading id = record {
  tool = "get_ticket";
  args = ("ticket_id", Value.integer (pos id)) ∷ [];
  token = "jwt";
  session_id = some "s";
}

abbrev pub draw : Draw
draw = record { now = second; jti = "j1"; refresh = "new" }

abbrev pub ann_info : ClientInfo
ann_info = record { client_id = "ann"; client_secret = "s1"; scope = "tickets:read" }

abbrev pub bob_info : ClientInfo
bob_info = record { client_id = "bob"; client_secret = "s2"; scope = "tickets:read" }

-- A log of two events, whose toy HMACs are the tools' names.
abbrev pub event : ℕ → String → String → Event
event n tool previous_hash = record {
  sequence = n;
  body = record {
    session_id = "s";
    occurred_at = n;
    client_id = some "ann";
    tool = tool;
    action = "read";
    decision = "allow";
    reason = "policy_satisfied";
    subject_team = some "alpha";
    args_json = compact (Value.object Fields.end);
    args_digest = "digest";
    latency_ms = 1;
    previous_hash = previous_hash;
  };
  event_hash = tool;
}

abbrev pub log : List Event
log = event 1 "get_ticket" genesis ∷ event 2 "list_tickets" "get_ticket" ∷ []

abbrev pub logged : Db
logged = record db { events = log; last_sequence = 2 }

-- An event to come, with a token among its arguments.
abbrev pub entry_with : String → Entry
entry_with secret = record {
  session_id = "s";
  client_id = some "ann";
  tool = "get_ticket";
  action = "read";
  decision = "allow";
  reason = "policy_satisfied";
  args = ("token", Value.text secret) ∷ [];
  latency_ms = 1;
  subject_team = some "alpha";
}
