-- ===== src/Gateway/Dispatch/Narrowed.antt =====
-- The row filter as a whole: a call sees and changes the database as if it held its teams' rows only.
use mcpgate.Prelude.{ℕ, String, ◌≡◌, refl, ◌∙◌, ap, Option, none, some, List, ℤ, contains, arith}
use mcpgate.Result.{Result, ok, err, ◌>>=◌}
use mcpgate.Store.{Ticket, Db}
use mcpgate.Store.Narrowed.{narrowed, narrowed_outcome}
use mcpgate.Store.Tickets.{list_tickets, get_ticket, create_ticket, update_status}
use mcpgate.Store.Tickets.Rows.{IsKeyed}
use mcpgate.Store.Tickets.Narrow.{
  kept, list_tickets-narrowed, get_ticket-narrowed, create_ticket-narrowed, update_status-narrowed,
}
use mcpgate.Store.Events.{audit_events}
use mcpgate.Store.Events.Scope.{audit_events-narrowed}
use mcpgate.Auth.Access.{AccessToken}
use mcpgate.Gateway.Clean.{Clean, get_words, get_whole, get_optional_words, get_optional_whole}
use mcpgate.Gateway.Dispatch.{
  Reply, rows, row, events, teams_of, visible_ticket, if_visible, after, run_list, run_get,
  creation, run_create, change, run_update, clamp_limit, run_audit, as_row, dispatch,
}
use mcpgate.Gateway.Dispatch.RowFilter.{creation_lem, change_lem}

module _ (teams : List String) (db : Db) where
  visible_ticket-narrowed :
      (id : ℤ)
      → IsKeyed db
      → visible_ticket id teams (narrowed teams db) ≡ visible_ticket id teams db
  unfolding visible_ticket if_visible
  visible_ticket-narrowed id h =
      ap (λ r. r >>= if_visible teams) (get_ticket-narrowed teams db id h) ∙ go (get_ticket id db)
    where
      go :
          (r : Result (Option Ticket))
          → ((r >>= λ t. ok (kept (λ u. contains teams u.team) t)) >>= if_visible teams)
            ≡ (r >>= if_visible teams)
      go (ok none) = refl
      go (ok (some t)) = ground arith
      go (err e) = refl

  -- A branch that only reads.
  unread : {r r' : Result Reply} → r ≡ r' → (r, narrowed teams db) ≡ narrowed_outcome teams (r', db)
  unread e = ap (λ x. (x, narrowed teams db)) e

  run_list-narrowed :
      (args : Clean)
      → run_list teams args (narrowed teams db) ≡ narrowed_outcome teams (run_list teams args db)
  unfolding run_list
  run_list-narrowed args = unread (go (get_optional_words "status" args))
    where
      go :
          (r : Result (Option String))
          → (r >>= λ status. ok (rows (list_tickets teams status (narrowed teams db))))
            ≡ (r >>= λ status. ok (rows (list_tickets teams status db)))
      go (ok status) = rw (list_tickets-narrowed teams db status)
      go (err e) = refl

  run_audit-narrowed :
      (args : Clean)
      → run_audit teams args (narrowed teams db) ≡ narrowed_outcome teams (run_audit teams args db)
  unfolding run_audit
  run_audit-narrowed args = unread (go (get_optional_whole "limit" args))
    where
      shown : Option ℤ → Db → Result Reply
      shown limit d = ok (events (audit_events none (clamp_limit limit) (some teams) d))

      go :
          (r : Result (Option ℤ))
          → (r >>= λ limit. shown limit (narrowed teams db)) ≡ (r >>= λ limit. shown limit db)
      go (ok limit) = rw (audit_events-narrowed (clamp_limit limit) teams db)
      go (err e) = refl

  module _ (keyed : IsKeyed db) where
    run_get-narrowed :
        (args : Clean)
        → run_get teams args (narrowed teams db) ≡ narrowed_outcome teams (run_get teams args db)
    unfolding run_get
    run_get-narrowed args = unread (go (get_whole "ticket_id" args))
      where
        found : Result Ticket → Result Reply
        found r = r >>= λ t. ok (row (some t))

        go :
            (r : Result ℤ)
            → (r >>= λ id. found (visible_ticket id teams (narrowed teams db)))
              ≡ (r >>= λ id. found (visible_ticket id teams db))
        go (ok id) = rw (visible_ticket-narrowed id keyed)
        go (err e) = refl

    change-narrowed : (args : Clean) → change teams args (narrowed teams db) ≡ change teams args db
    unfolding change
    change-narrowed args = go (get_whole "ticket_id" args)
      where
        named : ℤ → Result (ℤ × String)
        named id = get_words "status" args >>= λ status. ok (id, status)

        go :
            (r : Result ℤ)
            → (r >>= λ id. visible_ticket id teams (narrowed teams db) >>= λ t. named id)
              ≡ (r >>= λ id. visible_ticket id teams db >>= λ t. named id)
        go (ok id) = rw (visible_ticket-narrowed id keyed)
        go (err e) = refl

    run_create-narrowed :
        (client_id : String) (args : Clean) (now : ℕ)
        → run_create teams client_id args now (narrowed teams db)
          ≡ narrowed_outcome teams (run_create teams client_id args now db)
    unfolding run_create as_row
    run_create-narrowed client_id args now = go (creation teams args) refl
      where
        next : String × String × String → Db → Result Reply × Db
        next q d = as_row (create_ticket q.0 q.1 q.2 client_id now d)

        go :
            (r : Result (String × String × String))
            → creation teams args ≡ r
            → after r (λ q. next q (narrowed teams db)) (narrowed teams db)
              ≡ narrowed_outcome teams (after r (λ q. next q db) db)
        go (ok q) e = ap as_row (
            create_ticket-narrowed teams now db keyed q.0 q.1 q.2 client_id
              (creation_lem teams args q e))
        go (err x) e = refl

    run_update-narrowed :
        (args : Clean) (now : ℕ)
        → run_update teams args now (narrowed teams db)
          ≡ narrowed_outcome teams (run_update teams args now db)
    unfolding run_update as_row
    run_update-narrowed args now =
        ap (λ r. after r (λ q. next q (narrowed teams db)) (narrowed teams db))
          (change-narrowed args)
        ∙ go (change teams args db) refl
      where
        next : ℤ × String → Db → Result Reply × Db
        next q d = as_row (update_status q.0 q.1 now d)

        go :
            (r : Result (ℤ × String))
            → change teams args db ≡ r
            → after r (λ q. next q (narrowed teams db)) (narrowed teams db)
              ≡ narrowed_outcome teams (after r (λ q. next q db) db)
        go (ok q) e =
            let (t, found, mine) = change_lem teams args db q e in
            ap as_row (update_status-narrowed teams now db keyed q.0 q.1 t found mine)
        go (err x) e = refl

-- A call never depends on what its token does not name: where the tickets' keys are in order, any tool
-- with any arguments, run on the database without the tickets of other teams and the events about other
-- teams, answers or fails as on the whole database, and leaves that part of the database as there.
pub dispatch-narrowed :
    (tool : String) (args : Clean) (access : AccessToken) (now : ℕ) (db : Db)
    → IsKeyed db
    → dispatch tool args access now (narrowed (teams_of access) db)
      ≡ narrowed_outcome (teams_of access) (dispatch tool args access now db)
unfolding dispatch
dispatch-narrowed tool args access now db keyed =
    let teams = teams_of access in
    ground (
      arith,
      run_list-narrowed teams db args,
      run_audit-narrowed teams db args,
      run_get-narrowed teams db keyed args,
      run_create-narrowed teams db keyed access.client_id args now,
      run_update-narrowed teams db keyed args now,
    )
