-- ===== src/Store.antt =====
-- src/mcpgate/store.py: the three tables of the database. A table is the list of its rows in the order
-- of their keys; what AUTOINCREMENT remembers is beside it. Each method runs under the lock and commits
-- before it returns, so a method is one step. Times are in microseconds.
pub mod Tickets
pub mod Artifacts
pub mod Events
pub mod Narrowed
use mcpgate.Prelude.{ℕ, String, Bool, Option, List, []}
use mcpgate.Value.{Json}

pub record Ticket : Type 0 where
  pub id : ℕ
  pub team : String
  pub title : String
  pub body : String
  pub status : String
  pub created_by : String
  pub created_at : ℕ
  pub updated_at : ℕ

-- The `kind` of an artifact.
pub data Kind : Type 0 where
  authorization_code refresh_token access_token : Kind

-- The JSON object in the `payload` column, kept as its entries: `none` is a key that is not there.
pub record Payload : Type 0 where
  pub scopes : List String
  pub jti : Option String
  pub code_challenge : Option String
  pub redirect_uri : Option String
  pub redirect_uri_provided_explicitly : Option Bool
  pub resource : Option String

pub record Artifact : Type 0 where
  pub digest : String
  pub kind : Kind
  pub client_id : String
  pub payload : Payload
  pub expires_at : ℕ
  pub consumed : Bool
  pub revoked : Bool

-- The columns of an audit event that its HMAC covers. `latency_ms` is in 10 ^ -6 milliseconds, to which
-- the code rounds it.
pub record Body : Type 0 where
  pub session_id : String
  pub occurred_at : ℕ
  pub client_id : Option String
  pub tool : String
  pub action : String
  pub decision : String
  pub reason : String
  pub subject_team : Option String
  pub args_json : Json
  pub args_digest : String
  pub latency_ms : ℕ
  pub previous_hash : String

pub record Event : Type 0 where
  pub sequence : ℕ
  pub body : Body
  pub event_hash : String

pub record Db : Type 0 where
  pub tickets : List Ticket
  pub last_ticket_id : ℕ
  pub artifacts : List Artifact
  pub events : List Event
  pub last_sequence : ℕ

-- The database after `executescript(SCHEMA)` on a new file.
abbrev pub new_db : Db
new_db = record { tickets = []; last_ticket_id = 0; artifacts = []; events = []; last_sequence = 0 }
