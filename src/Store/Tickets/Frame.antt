-- ===== src/Store/Tickets/Frame.antt =====
-- What the writes to the tickets table leave alone.
use mcpgate.Prelude.{
  ℕ, ◌≤◌, String, ◌≡◌, refl, inl, inr, true, List, [], ◌∷◌, ℤ, leb, int64_max, fits_int64, arith,
  Bool-cases,
}
use mcpgate.Result.{Failure, err, fault}
use mcpgate.Store.{Ticket, Db}
use mcpgate.Store.Tickets.{get_ticket, insert_ticket, create_ticket, update_status, seed_rows, seed}

-- The tables that are not the tickets'.
pub record SameElsewhere (db db' : Db) : Type 0 where
  pub artifacts : db'.artifacts ≡ db.artifacts
  pub events : db'.events ≡ db.events
  pub last_sequence : db'.last_sequence ≡ db.last_sequence

pub SameElsewhere-refl : (db : Db) → SameElsewhere db db
SameElsewhere-refl db = record { artifacts = refl; events = refl; last_sequence = refl }

module _ (team title body client_id : String) (now : ℕ) (db : Db) where
  pub create_ticket-SameElsewhere :
      SameElsewhere db (create_ticket team title body client_id now db).1
  unfolding create_ticket insert_ticket
  create_ticket-SameElsewhere = elim (Bool-cases (leb int64_max db.last_ticket_id)) [
    | inl full ↦ rw full (SameElsewhere-refl db)
    | inr room ↦ rw room (record { artifacts = refl; events = refl; last_sequence = refl })
  ]

  pub create_ticket_failed :
      (e : Failure)
      → (create_ticket team title body client_id now db).0 ≡ err e
      → (create_ticket team title body client_id now db).1 ≡ db
  unfolding create_ticket get_ticket
  create_ticket_failed e h = ground arith

  pub create_ticket_full :
      leb int64_max db.last_ticket_id ≡ true
      → (create_ticket team title body client_id now db).0 ≡ err fault
  unfolding create_ticket
  create_ticket_full full = rw full

  pub last_ticket_id-create_ticket :
      (n : ℕ)
      → n ≤ db.last_ticket_id
      → n ≤ (create_ticket team title body client_id now db).1.last_ticket_id
  unfolding create_ticket insert_ticket
  last_ticket_id-create_ticket n h = ground arith

module _ (id : ℤ) (status : String) (now : ℕ) (db : Db) where
  pub update_status-SameElsewhere : SameElsewhere db (update_status id status now db).1
  unfolding update_status
  update_status-SameElsewhere = elim (Bool-cases (fits_int64 id)) [
    | inl fits ↦ rw fits (record { artifacts = refl; events = refl; last_sequence = refl })
    | inr bad ↦ rw bad (SameElsewhere-refl db)
  ]

  pub update_status_failed :
      (e : Failure)
      → (update_status id status now db).0 ≡ err e
      → (update_status id status now db).1 ≡ db
  unfolding update_status get_ticket
  update_status_failed e h = ground arith

seed_rows-SameElsewhere :
    (rows : List Ticket) (now : ℕ) (db : Db) → SameElsewhere db (seed_rows rows now db)
unfolding seed_rows insert_ticket
seed_rows-SameElsewhere [] now db = record { artifacts = refl; events = refl; last_sequence = refl }
seed_rows-SameElsewhere (t ∷ rows) now db = SameElsewhere-refl db

-- So does seeding the table.
pub seed-SameElsewhere : (now : ℕ) (db : Db) → SameElsewhere db (seed now db)
unfolding seed
seed-SameElsewhere now db = seed_rows-SameElsewhere db.tickets now db
