-- ===== src/Gateway/Dispatch.antt =====
-- src/mcpgate/gateway.py: `_visible_ticket`, `_dispatch`, `direct`.
pub mod RowFilter
pub mod Shown
pub mod Effects
pub mod Narrowed
use mcpgate.Prelude.{
  ℕ, String, not, Option, none, some, List, [], ◌∷◌, ℤ, pos, negsuc, min, nat_eq, ◌==◌, contains,
  if◌then◌else◌,
}
use mcpgate.Result.{Code, Result, ok, err, ◌>>=◌, refuse, refuse_if, ◌>>◌}
use mcpgate.Store.{Ticket, Event, Db}
use mcpgate.Store.Tickets.{list_tickets, get_ticket, create_ticket, update_status}
use mcpgate.Store.Events.{audit_events}
use mcpgate.Auth.Access.{AccessToken}
use mcpgate.Policy.Order.{sorted_set}
use mcpgate.Gateway.Clean.{Clean, get_words, get_whole, get_optional_words, get_optional_whole}

-- What a tool returns: a list of tickets, a ticket or None, a list of events.
pub data Reply : Type 0 where
  rows : List Ticket → Reply
  row : Option Ticket → Reply
  events : List Event → Reply

-- `claims.get("teams", [])`
abbrev pub or_no_teams : Option (List String) → List String
or_no_teams none = []
or_no_teams (some teams) = teams

abbrev pub teams_of : AccessToken → List String
teams_of access = or_no_teams access.claims.teams

-- `_visible_ticket` on the row that was found. An out-of-scope row answers as a missing one.
if_visible : List String → Option Ticket → Result Ticket
if_visible teams none = refuse Code.not_found
if_visible teams (some t) = if not (contains teams t.team) then refuse Code.not_found else ok t

unfoldable pub visible_ticket : ℤ → List String → Db → Result Ticket
unfolding if_visible
visible_ticket id teams db = get_ticket id db >>= if_visible teams

-- The rest of a branch, after what only reads: it changes nothing if that fails.
abbrev after {ℓ} : {R : Type ℓ} → Result R → (R → Result Reply × Db) → Db → Result Reply × Db
after (ok r) next db = next r
after (err e) next db = (err e, db)

run_list : List String → Clean → Db → Result Reply × Db
run_list teams args db =
    (get_optional_words "status" args >>= λ status. ok (rows (list_tickets teams status db)), db)

run_get : List String → Clean → Db → Result Reply × Db
run_get teams args db =
    (do id ← get_whole "ticket_id" args; t ← visible_ticket id teams db; ok (row (some t)), db)

-- The three texts of a new ticket, its team within the caller's.
pub creation : List String → Clean → Result (String × String × String)
creation teams args = do
  team ← get_words "team" args
  refuse_if (not (contains teams team)) Code.row_scope_violation
  title ← get_words "title" args
  body ← get_words "body" args
  ok (team, title, body)

as_row : Result (Option Ticket) × Db → Result Reply × Db
as_row (r, db) = (r >>= λ t. ok (row t), db)

run_create : List String → String → Clean → ℕ → Db → Result Reply × Db
unfolding creation as_row
run_create teams client_id args now db =
    after (creation teams args) (λ r. as_row (create_ticket r.0 r.1 r.2 client_id now db)) db

-- The id and the new status of a visible ticket.
pub change : List String → Clean → Db → Result (ℤ × String)
change teams args db = do
  id ← get_whole "ticket_id" args
  visible ← visible_ticket id teams db
  status ← get_words "status" args
  ok (id, status)

run_update : List String → Clean → ℕ → Db → Result Reply × Db
unfolding change as_row
run_update teams args now db =
    after (change teams args db) (λ r. as_row (update_status r.0 r.1 now db)) db

-- `min(max(limit or 20, 1), 100)`
clamp_limit : Option ℤ → ℕ
clamp_limit none = 20
clamp_limit (some (pos n)) = if nat_eq n 0 then 20 else min n 100
clamp_limit (some (negsuc n)) = 1

run_audit : List String → Clean → Db → Result Reply × Db
unfolding clamp_limit
run_audit teams args db = (
  get_optional_whole "limit" args >>= λ limit.
      ok (events (audit_events none (clamp_limit limit) (some teams) db)),
  db,
)

-- `now` is the time that a write stores.
unfoldable pub dispatch : String → Clean → AccessToken → ℕ → Db → Result Reply × Db
unfolding run_list run_get run_create run_update run_audit
dispatch tool args access now db =
    if tool == "list_tickets"
    then run_list (teams_of access) args db
    else if tool == "get_ticket"
    then run_get (teams_of access) args db
    else if tool == "create_ticket"
    then run_create (teams_of access) access.client_id args now db
    else if tool == "update_ticket_status"
    then run_update (teams_of access) args now db
    else if tool == "audit_recent"
    then run_audit (teams_of access) args db
    else (refuse Code.unknown_tool, db)

-- The benchmark's baseline: no guard but the row filter. Its arguments are of the checked shapes.
unfoldable pub direct : String → Clean → List String → String → ℕ → Db → Result Reply × Db
direct tool args teams client_id now db =
    dispatch tool args
      (record {
        token = "benchmark";
        client_id = client_id;
        scopes = "tickets:read" ∷ "tickets:write" ∷ "audit:read" ∷ [];
        expires_at = 0;
        resource = "";
        subject = "";
        claims = record { teams = some (sorted_set teams); jti = none };
      })
      now db
