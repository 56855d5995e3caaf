-- ===== src/Gateway/Pipeline/Spared.antt =====
-- Which calls leave an old ticket as it is.
use mathlib.Core.Bool.{false≢true}
use mcpgate.Prelude.{ℕ, ◌+◌, ◌≤◌, ◌≡◌, ◌≢◌, refl, sym, ◌∙◌, false, Option, pos, ◌==◌, arith}
use mcpgate.Result.{Result}
use mcpgate.Store.{Ticket, Db}
use mcpgate.Store.Tickets.{get_ticket}
use mcpgate.Store.Tickets.Rows.{get_ticket-create_ticket_ne}
use mcpgate.Store.Tickets.Frame.{last_ticket_id-create_ticket}
use mcpgate.Gateway.Dispatch.Effects.{dispatch_keeps}
use mcpgate.Gateway.Pipeline.{Invocation, Gateway, State, Readings, invoke}
use mcpgate.Gateway.Pipeline.Mediation.{invoke_keeps}

-- A ticket of an id that was given, as it was found.
abbrev Holds : ℕ → Result (Option Ticket) → Db → Type 0
Holds n found db = (get_ticket (pos n) db ≡ found) × (n ≤ db.last_ticket_id)

get_ticket_eq :
    (n : ℕ) (d e : Db) → d.tickets ≡ e.tickets → get_ticket (pos n) d ≡ get_ticket (pos n) e
unfolding get_ticket
get_ticket_eq n d e h = rw h

not_next : (m n : ℕ) → n ≤ m → pos n ≢ pos (m + 1)
not_next m n h e = let same : n ≡ m + 1 = cc in omega (arith, same)

-- A call of any tool but `update_ticket_status` leaves every ticket as it is that has an id given before.
pub get_ticket-invoke :
    (g : Gateway) (i : Invocation) (r : Readings) (s : State) (n : ℕ)
    → (i.tool == "update_ticket_status") ≡ false
    → n ≤ s.db.last_ticket_id
    → (get_ticket (pos n) (invoke g i r s).1.db ≡ get_ticket (pos n) s.db)
      × (n ≤ (invoke g i r s).1.db.last_ticket_id)
get_ticket-invoke g i r s n other given =
    let (d, (same, low), tickets, last) =
      invoke_keeps g i r s (Holds n (get_ticket (pos n) s.db)) (refl, given)
        (λ access clean p.
          dispatch_keeps i.tool clean access r.write_now s.db (Holds n (get_ticket (pos n) s.db))
            (refl, given)
            (λ team title body. (
              get_ticket-create_ticket_ne team title body access.client_id r.write_now s.db (pos n)
                  (not_next s.db.last_ticket_id n given),
              last_ticket_id-create_ticket team title body access.client_id r.write_now s.db n
                  given,
            ))
            (λ is_update. absurd (false≢true (sym other ∙ is_update)))) in
    (get_ticket_eq n (invoke g i r s).1.db d tickets ∙ same, rw last low)
