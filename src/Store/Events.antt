-- ===== src/Store/Events.antt =====
-- The audit_events table: `append_audit`, `last_audit_hash`, `audit_events`.
pub mod Scope
use mcpgate.Prelude.{
  ℕ, ◌+◌, String, Bool, true, ◌&&◌, Option, none, some, List, [], ◌∷◌, ◌++◌, ◌==◌, contains, select,
  take, reverse, if◌then◌else◌,
}
use mcpgate.Store.{Body, Event, Db}

-- Returns the row that it wrote, beside the database.
unfoldable pub append_audit : Body → String → Db → Event × Db
append_audit body event_hash db =
    let e : Event = record {
      sequence = db.last_sequence + 1;
      body = body;
      event_hash = event_hash;
    } in
    (e, record db { events = db.events ++ e ∷ []; last_sequence = db.last_sequence + 1 })

-- `"0" * 64`
abbrev pub genesis : String
genesis = "0000000000000000000000000000000000000000000000000000000000000000"

abbrev pub last_hash : String → List Event → String
last_hash start [] = start
last_hash start (e ∷ events) = last_hash e.event_hash events

unfoldable pub last_audit_hash : Db → String
last_audit_hash db = last_hash genesis db.events

-- `session_id = ?`, unless the session is None or empty
abbrev pub in_session : Option String → Event → Bool
in_session none e = true
in_session (some s) e = if s == "" then true else e.body.session_id == s

-- The team clause: NULL subjects, and those of the given teams; no clause for `teams=None`.
abbrev pub in_teams : Option (List String) → Option String → Bool
in_teams none subject = true
in_teams (some teams) none = true
in_teams (some teams) (some team) = contains teams team

-- `ORDER BY sequence` within a session, `ORDER BY sequence DESC` otherwise.
ordered : Option String → List Event → List Event
ordered none events = reverse events
ordered (some s) events = if s == "" then reverse events else events

unfoldable pub audit_events : Option String → ℕ → Option (List String) → Db → List Event
unfolding ordered
audit_events session limit teams db = take limit (
    ordered session
      (select (λ e. in_session session e && in_teams teams e.body.subject_team) db.events))
