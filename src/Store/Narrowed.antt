-- ===== src/Store/Narrowed.antt =====
-- The database cut down to the rows that belong to some teams.
use mcpgate.Prelude.{String, some, List, contains, select}
use mcpgate.Store.{Db}
use mcpgate.Store.Events.{in_teams}

-- The database without the tickets of other teams and the events about other teams.
abbrev pub narrowed : List String → Db → Db
narrowed teams db = record db {
  tickets = select (λ t. contains teams t.team) db.tickets;
  events = select (λ e. in_teams (some teams) e.body.subject_team) db.events;
}

-- An outcome on the whole database, with the database cut down.
abbrev pub narrowed_outcome {ℓ} : {A : Type ℓ} → List String → A × Db → A × Db
narrowed_outcome teams (r, db) = (r, narrowed teams db)
