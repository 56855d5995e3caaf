-- ===== src/Store/Tickets.antt =====
-- The tickets table: `seed`, `list_tickets`, `get_ticket`, `create_ticket`, `update_status`.
pub mod Rows
pub mod Updates
pub mod Frame
pub mod Narrow
use mcpgate.Prelude.{
  ℕ, ◌+◌, String, Bool, true, false, ◌&&◌, Option, none, some, List, [], ◌∷◌, ◌++◌, ℤ, pos, negsuc,
  int64_max, fits_int64, leb, nat_eq, ◌==◌, contains, select, first, if◌then◌else◌,
}
use mcpgate.Result.{Result, ok, err, fault}
use mcpgate.Store.{Ticket, Db}

-- `id = ?`
abbrev pub has_id : ℤ → Ticket → Bool
has_id (pos n) t = nat_eq t.id n
has_id (negsuc n) t = false

-- `status = ?`, where a status is given
abbrev pub has_status : Option String → Ticket → Bool
has_status none t = true
has_status (some s) t = t.status == s

select_tickets : List String → Option String → List Ticket → List Ticket
select_tickets [] status rows = []
select_tickets (team ∷ teams) status rows =
    select (λ t. contains (team ∷ teams) t.team && has_status status t) rows

unfoldable pub list_tickets : List String → Option String → Db → List Ticket
unfolding select_tickets
list_tickets teams status db = select_tickets teams status db.tickets

-- An id outside SQLite's INTEGER cannot be bound: an OverflowError.
unfoldable pub get_ticket : ℤ → Db → Result (Option Ticket)
get_ticket id db = if fits_int64 id then ok (first (has_id id) db.tickets) else err fault

abbrev pub opened : ℕ → String → String → String → String → String → ℕ → Ticket
opened id team title body status client_id now = record {
  id = id;
  team = team;
  title = title;
  body = body;
  status = status;
  created_by = client_id;
  created_at = now;
  updated_at = now;
}

-- `INSERT INTO tickets`: the id after the largest one ever given.
insert_ticket : String → String → String → String → String → ℕ → Db → Db
insert_ticket team title body status client_id now db = record db {
  tickets = db.tickets ++ opened (db.last_ticket_id + 1) team title body status client_id now ∷ [];
  last_ticket_id = db.last_ticket_id + 1;
}

-- A table that has held the largest id takes no new row: an OperationalError.
unfoldable pub create_ticket :
    String → String → String → String → ℕ → Db → Result (Option Ticket) × Db
unfolding insert_ticket
create_ticket team title body client_id now db =
    if leb int64_max db.last_ticket_id then (err fault, db) else (
      get_ticket (pos (db.last_ticket_id + 1))
          (insert_ticket team title body "open" client_id now db),
      insert_ticket team title body "open" client_id now db,
    )

-- `UPDATE tickets SET status = ?, updated_at = ? WHERE id = ?`
pub set_status : ℤ → String → ℕ → List Ticket → List Ticket
set_status id status now [] = []
set_status id status now (t ∷ rows) =
    (if has_id id t then record t { status = status; updated_at = now } else t)
    ∷ set_status id status now rows

-- `cursor.rowcount`, as a test
touched : ℤ → List Ticket → Bool
touched id rows = elim (first (has_id id) rows) [ none ↦ false | some _ ↦ true ]

unfoldable pub update_status : ℤ → String → ℕ → Db → Result (Option Ticket) × Db
unfolding set_status touched
update_status id status now db =
    let db' = record db { tickets = set_status id status now db.tickets } in
    if fits_int64 id
    then (if touched id db.tickets then get_ticket id db' else ok none, db')
    else (err fault, db)

pub seed_rows : List Ticket → ℕ → Db → Db
seed_rows [] now db =
    insert_ticket "security" "Rotate signing key" "Quarterly key rotation is due." "planned" "seed"
      now
      (insert_ticket "beta" "Export is slow" "CSV export exceeds the latency SLO." "open" "seed" now
        (insert_ticket "alpha" "Login timeout" "Customers see a timeout after SSO." "open" "seed"
          now db))
seed_rows (t ∷ rows) now db = db

-- Three rows, if the table is empty.
unfoldable pub seed : ℕ → Db → Db
unfolding seed_rows insert_ticket
seed now db = seed_rows db.tickets now db
