-- ===== src/Gateway/Dispatch/RowFilter.antt =====
-- The row filter: which rows a dispatched call may change.
use mcpgate.Prelude.{
  ℕ, String, ◌≡◌, refl, subst, true, false, not, some, List, ℤ, ◌==◌, ==_iff, contains, arith,
}
use mcpgate.Result.{Code, Result, ok, err, refuse, refuse_if, >>=-eq-ok}
use mcpgate.Store.{Ticket, Db}
use mcpgate.Store.Tickets.{get_ticket, create_ticket, update_status}
use mcpgate.Store.Tickets.Rows.{IsKeyed}
use mcpgate.Store.Tickets.Updates.{team_rows, team_rows-update_status, team_rows-create_ticket}
use mcpgate.Auth.Access.{AccessToken}
use mcpgate.Gateway.Clean.{Clean, get_words, get_whole}
use mcpgate.Gateway.Dispatch.{
  teams_of, visible_ticket, after, run_list, run_get, creation, run_create, change, run_update,
  run_audit, as_row, dispatch,
}

-- An id of another team's ticket gets the answer of an id that no ticket has.
pub visible_ticket_hidden :
    (id : ℤ) (teams : List String) (db : Db) (t : Ticket)
    → get_ticket id db ≡ ok (some t)
    → contains teams t.team ≡ false
    → visible_ticket id teams db ≡ refuse Code.not_found
unfolding visible_ticket
visible_ticket_hidden id teams db t h k = rw (h, k)

pub visible_ticket_lem :
    (id : ℤ) (teams : List String) (db : Db) (t : Ticket)
    → visible_ticket id teams db ≡ ok t
    → (get_ticket id db ≡ ok (some t)) × (contains teams t.team ≡ true)
unfolding visible_ticket
visible_ticket_lem id teams db t h = ground arith

not_in_teams :
    (teams : List String) (owner team : String)
    → contains teams owner ≡ true
    → contains teams team ≡ false
    → (owner == team) ≡ false
not_in_teams teams owner team h k = ground (arith, ==_iff owner team)

pub creation_lem :
    (teams : List String) (args : Clean) (q : String × String × String)
    → creation teams args ≡ ok q
    → contains teams q.0 ≡ true
unfolding creation
creation_lem teams args q h =
    let (owner, named, rest) = >>=-eq-ok (get_words "team" args) _ q h in
    let (u, allowed, texts) =
      >>=-eq-ok (refuse_if (not (contains teams owner)) Code.row_scope_violation) _ q rest in
    let (title, a, more) = >>=-eq-ok (get_words "title" args) _ q texts in
    let (body, b, last) = >>=-eq-ok (get_words "body" args) _ q more in
    ground (arith, allowed, last)

pub change_lem :
    (teams : List String) (args : Clean) (db : Db) (q : ℤ × String)
    → change teams args db ≡ ok q
    → (t : Ticket) × (get_ticket q.0 db ≡ ok (some t)) × (contains teams t.team ≡ true)
unfolding change
change_lem teams args db q h =
    let (id, named, rest) = >>=-eq-ok (get_whole "ticket_id" args) _ q h in
    let (t, seen, more) = >>=-eq-ok (visible_ticket id teams db) _ q rest in
    let (status, b, last) = >>=-eq-ok (get_words "status" args) _ q more in
    let same : id ≡ q.0 = cc in
    let found = visible_ticket_lem id teams db t seen in
    (t, subst (λ (x : ℤ). get_ticket x db ≡ ok (some t)) same found.0, found.1)

run_create_rows :
    (team : String) (teams : List String) (client_id : String) (args : Clean) (now : ℕ) (db : Db)
    → contains teams team ≡ false
    → team_rows team (run_create teams client_id args now db).1.tickets ≡ team_rows team db.tickets
unfolding run_create as_row
run_create_rows team teams client_id args now db k = go (creation teams args) refl
  where
    go :
        (r : Result (String × String × String))
        → creation teams args ≡ r
        → team_rows team
            (after r (λ q. as_row (create_ticket q.0 q.1 q.2 client_id now db)) db).1.tickets
          ≡ team_rows team db.tickets
    go (ok q) e =
        team_rows-create_ticket team q.0 q.1 q.2 client_id now db
          (not_in_teams teams q.0 team (creation_lem teams args q e) k)
    go (err x) e = refl

run_update_rows :
    (team : String) (teams : List String) (args : Clean) (now : ℕ) (db : Db)
    → IsKeyed db
    → contains teams team ≡ false
    → team_rows team (run_update teams args now db).1.tickets ≡ team_rows team db.tickets
unfolding run_update as_row
run_update_rows team teams args now db keyed k = go (change teams args db) refl
  where
    go :
        (r : Result (ℤ × String))
        → change teams args db ≡ r
        → team_rows team (after r (λ q. as_row (update_status q.0 q.1 now db)) db).1.tickets
          ≡ team_rows team db.tickets
    go (ok q) e =
        let (t, found, mine) = change_lem teams args db q e in
        team_rows-update_status team q.1 now q.0 db t keyed found
          (not_in_teams teams t.team team mine k)
    go (err x) e = refl

module _ (tool : String) (args : Clean) (access : AccessToken) (now : ℕ) (db : Db) where
  -- Where the tickets' keys are in order, a call changes no ticket of a team that its token does not
  -- name: the rows of such a team are the same before and after, whatever the tool and the arguments,
  -- and whether it succeeds or not.
  pub dispatch_confined :
      (team : String)
      → IsKeyed db
      → contains (teams_of access) team ≡ false
      → team_rows team (dispatch tool args access now db).1.tickets ≡ team_rows team db.tickets
  unfolding dispatch run_list run_get run_audit
  dispatch_confined team keyed k = ground (
    arith,
    run_create_rows team (teams_of access) access.client_id args now db k,
    run_update_rows team (teams_of access) args now db keyed k,
  )
