-- ===== src/Gateway/Dispatch/Effects.antt =====
-- What a dispatched call leaves alone, and what it returns.
use mcpgate.Prelude.{
  ℕ, String, ◌≡◌, inl, inr, refl, ◌∙◌, true, Option, List, ℤ, pos, ◌==◌, arith, Bool-cases,
}
use mcpgate.Result.{Failure, Result, ok, err}
use mcpgate.Store.{Ticket, Db}
use mcpgate.Store.Tickets.{create_ticket, update_status}
use mcpgate.Store.Tickets.Rows.{IsKeyed, IsKeyed-preserved}
use mcpgate.Store.Tickets.Frame.{
  SameElsewhere, SameElsewhere-refl, create_ticket-SameElsewhere, update_status-SameElsewhere,
  create_ticket_failed, update_status_failed,
}
use mcpgate.Auth.Access.{AccessToken}
use mcpgate.Gateway.Clean.{Clean}
use mcpgate.Gateway.Dispatch.{
  Reply, teams_of, after, run_list, run_get, creation, run_create, change, run_update, run_audit,
  as_row, dispatch,
}

-- A branch that writes keeps what its write keeps.
after_keeps {ℓ κ} :
    {R : Type ℓ} (P : Db → Type κ) (r : Result R) (next : R → Result Reply × Db) (db : Db)
    → P db
    → ((q : R) → P (next q).1)
    → P (after r next db).1
after_keeps P (ok q) next db h k = k q
after_keeps P (err e) next db h k = h

after_failed {ℓ} :
    {R : Type ℓ} (r : Result R) (next : R → Result Reply × Db) (db : Db) (e : Failure)
    → ((q : R) → (next q).0 ≡ err e → (next q).1 ≡ db)
    → (after r next db).0 ≡ err e
    → (after r next db).1 ≡ db
after_failed (ok q) next db e k h = k q h
after_failed (err x) next db e k h = refl

as_row_failed : (m : Result (Option Ticket) × Db) (e : Failure) → (as_row m).0 ≡ err e → m.0 ≡ err e
unfolding as_row
as_row_failed (ok t, db) e h = cc
as_row_failed (err x, db) e h = ground (arith, h)

as_row_db : (m : Result (Option Ticket) × Db) → (as_row m).1 ≡ m.1
unfolding as_row
as_row_db m = refl

run_create_failed :
    (teams : List String) (client_id : String) (args : Clean) (now : ℕ) (db : Db) (e : Failure)
    → (run_create teams client_id args now db).0 ≡ err e
    → (run_create teams client_id args now db).1 ≡ db
unfolding run_create
run_create_failed teams client_id args now db e = after_failed (creation teams args) _ db e (λ q h.
    as_row_db (create_ticket q.0 q.1 q.2 client_id now db)
    ∙ create_ticket_failed q.0 q.1 q.2 client_id now db e
        (as_row_failed (create_ticket q.0 q.1 q.2 client_id now db) e h))

run_update_failed :
    (teams : List String) (args : Clean) (now : ℕ) (db : Db) (e : Failure)
    → (run_update teams args now db).0 ≡ err e
    → (run_update teams args now db).1 ≡ db
unfolding run_update
run_update_failed teams args now db e = after_failed (change teams args db) _ db e (λ q h.
    as_row_db (update_status q.0 q.1 now db)
    ∙ update_status_failed q.0 q.1 now db e (as_row_failed (update_status q.0 q.1 now db) e h))

module _ (tool : String) (args : Clean) (access : AccessToken) (now : ℕ) (db : Db) where
  -- A call that ends in a refusal or a fault has changed nothing.
  pub dispatch_failed :
      (e : Failure)
      → (dispatch tool args access now db).0 ≡ err e
      → (dispatch tool args access now db).1 ≡ db
  unfolding dispatch run_list run_get run_audit
  dispatch_failed e h = ground (
    arith,
    run_create_failed (teams_of access) access.client_id args now db e,
    run_update_failed (teams_of access) args now db e,
  )

  -- A property of the database that the two writes keep is kept by a call of any tool, where the second
  -- one counts for its own tool only.
  pub dispatch_keeps :
      (P : Db → Type 0)
      → P db
      → ((team title body : String) → P (create_ticket team title body access.client_id now db).1)
      → ((tool == "update_ticket_status") ≡ true
          → (id : ℤ) (status : String) → P (update_status id status now db).1)
      → P (dispatch tool args access now db).1
  unfolding dispatch run_list run_get run_audit run_create run_update as_row
  dispatch_keeps P h create update = elim (Bool-cases (tool == "list_tickets")) [
    | inl a ↦ rw a h
    | inr a ↦ rw a (elim (Bool-cases (tool == "get_ticket")) [
      | inl b ↦ rw b h
      | inr b ↦ rw b (elim (Bool-cases (tool == "create_ticket")) [
        | inl c ↦
            rw c (after_keeps P (creation (teams_of access) args) _ db h (λ q. create q.0 q.1 q.2))
        | inr c ↦ rw c (elim (Bool-cases (tool == "update_ticket_status")) [
          | inl d ↦
              rw d (after_keeps P (change (teams_of access) args db) _ db h (λ q. update d q.0 q.1))
          | inr d ↦
              rw d (elim (Bool-cases (tool == "audit_recent")) [ inl e ↦ rw e h | inr e ↦ rw e h ])
        ])
      ])
    ])
  ]

  -- Dispatch writes to no table but the tickets'.
  pub dispatch-SameElsewhere : SameElsewhere db (dispatch tool args access now db).1
  dispatch-SameElsewhere =
      dispatch_keeps (SameElsewhere db) (SameElsewhere-refl db)
        (λ team title body. create_ticket-SameElsewhere team title body access.client_id now db)
        (λ _ id status. update_status-SameElsewhere id status now db)

  -- Dispatch keeps the keys of the tickets' table in order.
  pub dispatch-IsKeyed : IsKeyed db → IsKeyed (dispatch tool args access now db).1
  dispatch-IsKeyed h =
      dispatch_keeps IsKeyed h
        (λ team title body.
          (IsKeyed-preserved team title body access.client_id "" (pos 0) now db h).0)
        (λ _ id status. (IsKeyed-preserved "" "" "" "" status id now db h).1)
