-- ===== src/Demo/Ready.antt =====
-- The database on which the demo's session starts, and its calls.
use mcpgate.Prelude.{
  ℕ, ◌≤◌, String, ◌≡◌, refl, ◌∙◌, false, some, List, [], ◌∷◌, pos, ◌==◌, length, All, arith,
}
use mcpgate.Result.{ok}
use mcpgate.Store.{Ticket, Db, new_db}
use mcpgate.Store.Tickets.{get_ticket, opened, seed}
use mcpgate.Store.Artifacts.Frame.{SameTables}
use mcpgate.Gateway.Pipeline.{Invocation, Gateway, State, Readings, invoke}
use mcpgate.Gateway.Pipeline.Audited.{serve}
use mcpgate.Gateway.Pipeline.Spared.{get_ticket-invoke}
use mcpgate.Demo.{session, attempts, paired}

-- No call is an update.
abbrev pub NoUpdates : List (Invocation × Readings) → Type 0
NoUpdates calls = All (λ c. (c.0.tool == "update_ticket_status") ≡ false) calls

-- The third seeded ticket.
abbrev pub signing_key : ℕ → Ticket
signing_key now =
    opened 3 "security" "Rotate signing key" "Quarterly key rotation is due." "planned" "seed" now

-- The database before the session: no event, and the third seeded ticket.
pub record IsReady (now : ℕ) (db : Db) : Type 0 where
  pub events : db.events ≡ []
  pub ticket : get_ticket (pos 3) db ≡ ok (some (signing_key now))
  pub given : 3 ≤ db.last_ticket_id

pub seed-IsReady : (now : ℕ) → IsReady now (seed now new_db)
unfolding seed get_ticket
seed-IsReady now = record { events = refl; ticket = refl; given = omega arith }

pub IsReady-kept : (now : ℕ) (db db' : Db) → SameTables db db' → IsReady now db → IsReady now db'
unfolding get_ticket
IsReady-kept now db db' same h = record {
  events = same.events ∙ h.events;
  ticket = rw same.tickets h.ticket;
  given = rw same.last_ticket_id h.given;
}

pub get_ticket-serve :
    (g : Gateway) (calls : List (Invocation × Readings)) (s : State)
    → NoUpdates calls
    → 3 ≤ s.db.last_ticket_id
    → get_ticket (pos 3) (serve g calls s).db ≡ get_ticket (pos 3) s.db
unfolding serve
get_ticket-serve g [] s h k = refl
get_ticket-serve g ((i, r) ∷ calls) s h k =
    let (same, low) = get_ticket-invoke g i r s 3 h.0 k in
    get_ticket-serve g calls (invoke g i r s).1 h.1 low ∙ same

pub paired-All :
    (P : Invocation → Type 0) (calls : List Invocation) (readings : List Readings)
    → All P calls
    → All (λ c. P c.0) (paired calls readings)
paired-All P [] readings h = tt
paired-All P (i ∷ calls) [] h = tt
paired-All P (i ∷ calls) (r ∷ readings) h = (h.0, paired-All P calls readings h.1)

pub length-paired :
    (calls : List Invocation) (readings : List Readings)
    → length readings ≡ length calls
    → length (paired calls readings) ≡ length calls
length-paired [] readings h = refl
length-paired (i ∷ calls) [] h = h
length-paired (i ∷ calls) (r ∷ readings) h =
    omega (arith, h, length-paired calls readings (omega (arith, h)))

module _ (operator readonly : String) where
  pub attempts_named : All (λ i. i.session_id ≡ some session) (attempts operator readonly)
  attempts_named = (refl, (refl, (refl, (refl, (refl, tt)))))

  pub attempts_tools :
      All (λ i. (i.tool == "update_ticket_status") ≡ false) (attempts operator readonly)
  unfolding ◌==◌
  attempts_tools = (refl, (refl, (refl, (refl, (refl, tt)))))
