-- ===== src/Audit.antt =====
-- src/mcpgate/audit.py: the audit trail. Each event's HMAC covers twelve of its columns, the hash of the
-- event before it among them.
pub mod Chain
pub mod Limit
pub mod Tamper
pub mod Overlap
pub mod Redaction
use Prim.Native.Char.{code}
use mcpgate.Prelude.{
  ℕ, ◌+◌, String, Bool, true, false, ◌&&◌, ◌||◌, not, Option, none, some, List, [], ◌∷◌, leb,
  nat_eq, ◌==◌, map, reverse, if◌then◌else◌,
}
use mcpgate.Value.{
  Value, text, object, compact, spaced, Args, of_args, loads, Cell, absent, written, number,
  printed, Message,
}
use mcpgate.Crypto.{Crypto}
use mcpgate.Store.{Body, Event, Db}
use mcpgate.Store.Events.{append_audit, genesis, last_audit_hash, audit_events}

abbrev pub codes : String → List ℕ
codes String.[] = []
codes (String.◌∷◌ c s) = code c ∷ codes s

-- `str.lower` on a code point: A to Z, and the Kelvin sign, which is the only other one whose lower
-- case is ASCII alone. Other cased letters keep their code here; none of them can make a key equal to
-- one of `REDACTED_FIELDS`.
unfoldable pub lower : ℕ → ℕ
lower c = if leb b'A' c && leb c b'Z' then c + 32 else if nat_eq c 0x212a then b'k' else c

same_codes : List ℕ → List ℕ → Bool
same_codes [] [] = true
same_codes (c ∷ s) (d ∷ t) = nat_eq c d && same_codes s t
same_codes _ _ = false

-- `key.lower() in REDACTED_FIELDS`
unfoldable pub is_redacted : String → Bool
unfolding lower same_codes
is_redacted key =
    let k = map lower (codes key) in
    same_codes k (codes "token")
    || (same_codes k (codes "client_secret") || same_codes k (codes "body"))

unfoldable pub safe_args : Args → Args
safe_args [] = []
safe_args ((k, v) ∷ args) = (k, if is_redacted k then text "[REDACTED]" else v) ∷ safe_args args

or_null : Option String → Cell
or_null none = absent
or_null (some s) = written s

-- The text that the HMAC covers: twelve columns, by name.
unfoldable pub canonical : Body → Message
unfolding or_null
canonical b =
    ("action", written b.action)
    ∷ ("args_digest", written b.args_digest)
    ∷ ("args_json", printed b.args_json)
    ∷ ("client_id", or_null b.client_id)
    ∷ ("decision", written b.decision)
    ∷ ("latency_ms", number b.latency_ms)
    ∷ ("occurred_at", number b.occurred_at)
    ∷ ("previous_hash", written b.previous_hash)
    ∷ ("reason", written b.reason)
    ∷ ("session_id", written b.session_id)
    ∷ ("subject_team", or_null b.subject_team)
    ∷ ("tool", written b.tool)
    ∷ []

-- The keyword arguments of `record`.
pub record Entry : Type 0 where
  pub session_id : String
  pub client_id : Option String
  pub tool : String
  pub action : String
  pub decision : String
  pub reason : String
  pub args : Args
  pub latency_ms : ℕ
  pub subject_team : Option String

abbrev pub body_of : Crypto → Entry → ℕ → String → Body
body_of c e now previous_hash = record {
  session_id = e.session_id;
  occurred_at = now;
  client_id = e.client_id;
  tool = e.tool;
  action = e.action;
  decision = e.decision;
  reason = e.reason;
  subject_team = e.subject_team;
  args_json = compact (object (of_args (safe_args e.args)));
  args_digest = c.sha256_json (spaced (object (of_args e.args)));
  latency_ms = e.latency_ms;
  previous_hash = previous_hash;
}

-- `AuditLog.record`, under the log's key.
unfoldable pub record_event : Crypto → String → Entry → ℕ → Db → Event × Db
record_event c key e now db =
    let b : Body = body_of c e now (last_audit_hash db) in
    append_audit b (c.hmac_sha256 key (canonical b)) db

-- The loop of `verify_chain`, from the hash that the first event has to name.
unfoldable pub verify_from : Crypto → String → String → List Event → Bool
verify_from c key previous_hash [] = true
verify_from c key previous_hash (e ∷ events) =
    let rest = verify_from c key e.event_hash events in
    if not (e.body.previous_hash == previous_hash)
    then false
    else if not (c.hmac_sha256 key (canonical e.body) == e.event_hash)
    then false
    else rest

-- The most events that `verify_chain` reads.
abbrev pub chain_limit : ℕ
chain_limit = 1_000_000

unfoldable pub verify_chain : Crypto → String → Db → Bool
verify_chain c key db = verify_from c key genesis (reverse (audit_events none chain_limit none db))

-- One entry of a reconstructed session.
pub record Step : Type 0 where
  pub sequence : ℕ
  pub tool : String
  pub action : String
  pub decision : String
  pub reason : String
  pub args : Value

abbrev pub step_of : Event → Step
step_of e = record {
  sequence = e.sequence;
  tool = e.body.tool;
  action = e.body.action;
  decision = e.body.decision;
  reason = e.body.reason;
  args = loads e.body.args_json;
}

unfoldable pub reconstruct : String → Db → List Step
reconstruct session_id db = map step_of (audit_events (some session_id) 10_000 none db)
