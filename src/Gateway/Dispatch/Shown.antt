-- ===== src/Gateway/Dispatch/Shown.antt =====
-- The row filter on reads: what a dispatched call shows.
use mcpgate.Prelude.{
  ℕ, String, ◌≡◌, inl, inr, refl, Bool, true, false, Option, none, some, List, ℤ, int64_max, leb,
  ◌==◌, contains, if◌then◌else◌, arith, Bool-cases, In, In-All,
}
use mcpgate.Result.{Result, ok, err, ◌>>=◌}
use mcpgate.Store.{Ticket, Event, Db}
use mcpgate.Store.Tickets.{list_tickets, create_ticket, update_status}
use mcpgate.Store.Tickets.Rows.{IsKeyed, create_ticket_lem}
use mcpgate.Store.Tickets.Updates.{list_tickets_iff, update_status_found}
use mcpgate.Store.Events.{in_teams, audit_events}
use mcpgate.Store.Events.Scope.{audit_events-IsScoped}
use mcpgate.Auth.Access.{AccessToken}
use mcpgate.Gateway.Clean.{Clean, get_whole, get_optional_words, get_optional_whole}
use mcpgate.Gateway.Dispatch.{
  Reply, rows, row, events, teams_of, visible_ticket, after, run_list, run_get, creation,
  run_create, change, run_update, run_audit, as_row, dispatch, clamp_limit,
}
use mcpgate.Gateway.Dispatch.RowFilter.{visible_ticket_lem, creation_lem, change_lem}
use mcpgate.Store.Tickets.Frame.{create_ticket_full}

-- A reply that shows only what the teams may see: tickets of the teams, events about them or about no
-- team.
abbrev pub Shows : List String → Reply → Type 0
Shows teams (rows l) = (t : Ticket) → In t l → contains teams t.team ≡ true
Shows teams (row none) = Unit
Shows teams (row (some t)) = contains teams t.team ≡ true
Shows teams (events l) = (e : Event) → In e l → in_teams (some teams) e.body.subject_team ≡ true

abbrev pub ShowsResult : List String → Result Reply → Type 0
ShowsResult teams (ok reply) = Shows teams reply
ShowsResult teams (err e) = Unit

-- What holds of both branches holds of the one that is taken.
by_test {ℓ κ} :
    {A : Type ℓ} (P : A → Type κ) (b : Bool) (x y : A × Db)
    → P x.0
    → P y.0
    → P (if b then x else y).0
by_test P true x y h k = h
by_test P false x y h k = k

run_list_shows :
    (teams : List String) (args : Clean) (db : Db) → ShowsResult teams (run_list teams args db).0
unfolding run_list
run_list_shows teams args db = go (get_optional_words "status" args)
  where
    go :
        (r : Result (Option String))
        → ShowsResult teams (r >>= λ status. ok (rows (list_tickets teams status db)))
    go (ok status) = λ t m. ((list_tickets_iff teams status db t).0 m).1
    go (err e) = tt

run_get_shows :
    (teams : List String) (args : Clean) (db : Db) → ShowsResult teams (run_get teams args db).0
unfolding run_get
run_get_shows teams args db = go (get_whole "ticket_id" args)
  where
    seen :
        (id : ℤ) (r : Result Ticket)
        → visible_ticket id teams db ≡ r
        → ShowsResult teams (r >>= λ t. ok (row (some t)))
    seen id (ok t) e = (visible_ticket_lem id teams db t e).1
    seen id (err x) e = tt

    go :
        (r : Result ℤ)
        → ShowsResult teams (r >>= λ id. visible_ticket id teams db >>= λ t. ok (row (some t)))
    go (ok id) = seen id (visible_ticket id teams db) refl
    go (err e) = tt

run_audit_shows :
    (teams : List String) (args : Clean) (db : Db) → ShowsResult teams (run_audit teams args db).0
unfolding run_audit
run_audit_shows teams args db = go (get_optional_whole "limit" args)
  where
    go :
        (r : Result (Option ℤ))
        → ShowsResult teams
            (r >>= λ limit. ok (events (audit_events none (clamp_limit limit) (some teams) db)))
    go (ok limit) = λ e m.
        (In-All _ e (audit_events none (clamp_limit limit) (some teams) db) m
          (audit_events-IsScoped (clamp_limit limit) teams db).1).1
    go (err e) = tt

created_shows :
    (teams : List String) (owner title body client_id : String) (now : ℕ) (db : Db)
    → IsKeyed db
    → contains teams owner ≡ true
    → ShowsResult teams (as_row (create_ticket owner title body client_id now db)).0
unfolding as_row
created_shows teams owner title body client_id now db keyed mine =
    elim (Bool-cases (leb int64_max db.last_ticket_id)) [
      | inl full ↦ rw (create_ticket_full owner title body client_id now db full) tt
      | inr room ↦
          rw (create_ticket_lem owner title body client_id now db keyed (ground arith)).0 mine
    ]

run_create_shows :
    (teams : List String) (client_id : String) (args : Clean) (now : ℕ) (db : Db)
    → IsKeyed db
    → ShowsResult teams (run_create teams client_id args now db).0
unfolding run_create
run_create_shows teams client_id args now db keyed = go (creation teams args) refl
  where
    go :
        (r : Result (String × String × String))
        → creation teams args ≡ r
        → ShowsResult teams
            (after r (λ q. as_row (create_ticket q.0 q.1 q.2 client_id now db)) db).0
    go (ok q) e =
        created_shows teams q.0 q.1 q.2 client_id now db keyed (creation_lem teams args q e)
    go (err x) e = tt

run_update_shows :
    (teams : List String) (args : Clean) (now : ℕ) (db : Db)
    → ShowsResult teams (run_update teams args now db).0
unfolding run_update as_row
run_update_shows teams args now db = go (change teams args db) refl
  where
    go :
        (r : Result (ℤ × String))
        → change teams args db ≡ r
        → ShowsResult teams (after r (λ q. as_row (update_status q.0 q.1 now db)) db).0
    go (ok q) e =
        let (t, found, mine) = change_lem teams args db q e in
        rw (update_status_found q.0 q.1 now db t found) mine
    go (err x) e = tt

-- Where the tickets' keys are in order, a call that returns shows only tickets of the token's teams and
-- only events about those teams or about none, whatever the tool and the arguments.
pub dispatch_shows :
    (tool : String) (args : Clean) (access : AccessToken) (now : ℕ) (db : Db)
    → IsKeyed db
    → ShowsResult (teams_of access) (dispatch tool args access now db).0
unfolding dispatch
dispatch_shows tool args access now db keyed =
    let teams = teams_of access in
    by_test (ShowsResult teams) (tool == "list_tickets") _ _ (run_list_shows teams args db) (
      by_test (ShowsResult teams) (tool == "get_ticket") _ _ (run_get_shows teams args db) (
        by_test (ShowsResult teams) (tool == "create_ticket") _ _
          (run_create_shows teams access.client_id args now db keyed)
          (by_test (ShowsResult teams) (tool == "update_ticket_status") _ _
            (run_update_shows teams args now db)
            (by_test (ShowsResult teams) (tool == "audit_recent") _ _
              (run_audit_shows teams args db) tt))))
