-- ===== src/Store/Tickets/Rows.antt =====
-- The tickets table under its operations: keys, reads after writes, the team filter.
use mcpgate.Prelude.{
  ℕ, ◌+◌, ◌≤◌, ◌<◌, String, ◌≡◌, ◌≢◌, inl, inr, refl, false, none, some, List, [], ◌∷◌, ◌++◌, ℤ,
  pos, negsuc, int64_max, fits_int64, leb, nat_eq, first, first-append, arith, Bool-cases,
}
use mcpgate.Result.{ok}
use mcpgate.Store.{Ticket, Db}
use mcpgate.Store.Tickets.{
  has_id, get_ticket, opened, insert_ticket, create_ticket, set_status, update_status, seed_rows,
  seed,
}

-- The ids rise strictly from above `low` up to at most `high`.
abbrev pub Ascending : ℕ → List Ticket → ℕ → Type 0
Ascending low [] high = low ≤ high
Ascending low (t ∷ rows) high = (low < t.id) × Ascending t.id rows high

-- Every id was given by AUTOINCREMENT, in order.
pub record IsKeyed (db : Db) : Type 0 where
  pub ascending : Ascending 0 db.tickets db.last_ticket_id
  pub bounded : db.last_ticket_id ≤ int64_max

Ascending-append :
    (low high : ℕ) (rows : List Ticket) (t : Ticket)
    → Ascending low rows high
    → t.id ≡ high + 1
    → Ascending low (rows ++ t ∷ []) (high + 1)
Ascending-append low high [] t h e = omega arith
Ascending-append low high (r ∷ rows) t h e = (h.0, Ascending-append r.id high rows t h.1 e)

Ascending-set_status :
    (id : ℤ) (status : String) (now low high : ℕ) (rows : List Ticket)
    → Ascending low rows high
    → Ascending low (set_status id status now rows) high
unfolding set_status
Ascending-set_status id status now low high [] h = h
Ascending-set_status id status now low high (t ∷ rows) h =
    ground (arith, Ascending-set_status id status now t.id high rows h.1)

insert_ticket-IsKeyed :
    (team title body status client_id : String) (now : ℕ) (db : Db)
    → IsKeyed db
    → db.last_ticket_id < int64_max
    → IsKeyed (insert_ticket team title body status client_id now db)
unfolding insert_ticket
insert_ticket-IsKeyed team title body status client_id now db h room = record {
  ascending = Ascending-append 0 db.last_ticket_id db.tickets _ h.ascending refl;
  bounded = omega arith;
}

create_ticket-IsKeyed :
    (team title body client_id : String) (now : ℕ) (db : Db)
    → IsKeyed db
    → IsKeyed (create_ticket team title body client_id now db).1
unfolding create_ticket
create_ticket-IsKeyed team title body client_id now db h =
    elim (Bool-cases (leb int64_max db.last_ticket_id)) [
      | inl full ↦ rw full h
      | inr room ↦
          rw room (insert_ticket-IsKeyed team title body "open" client_id now db h (ground arith))
    ]

update_status-IsKeyed :
    (id : ℤ) (status : String) (now : ℕ) (db : Db)
    → IsKeyed db
    → IsKeyed (update_status id status now db).1
unfolding update_status
update_status-IsKeyed id status now db h = elim (Bool-cases (fits_int64 id)) [
  | inr bad ↦ rw bad h
  | inl fits ↦ rw fits (record {
    ascending = Ascending-set_status id status now 0 db.last_ticket_id db.tickets h.ascending;
    bounded = h.bounded;
  })
]

last_ticket_id-insert_ticket :
    (team title body status client_id : String) (now : ℕ) (db : Db)
    → (insert_ticket team title body status client_id now db).last_ticket_id ≡ db.last_ticket_id + 1
unfolding insert_ticket
last_ticket_id-insert_ticket team title body status client_id now db = refl

seed_rows-IsKeyed :
    (rows : List Ticket) (now : ℕ) (db : Db)
    → IsKeyed db
    → db.last_ticket_id + 3 ≤ int64_max
    → IsKeyed (seed_rows rows now db)
unfolding seed_rows
seed_rows-IsKeyed (t ∷ rows) now db h room = h
seed_rows-IsKeyed [] now db h room =
    insert_ticket-IsKeyed _ _ _ _ _ now _
      (insert_ticket-IsKeyed _ _ _ _ _ now _
        (insert_ticket-IsKeyed _ _ _ _ _ now db h (omega arith))
        (omega (arith, last_ticket_id-insert_ticket)))
      (omega (arith, last_ticket_id-insert_ticket))

-- The keys of the table stay in order, and within SQLite's INTEGER, when a ticket is created and when
-- one is updated.
pub IsKeyed-preserved :
    (team title body client_id status : String) (id : ℤ) (now : ℕ) (db : Db)
    → IsKeyed db
    → IsKeyed (create_ticket team title body client_id now db).1
      × IsKeyed (update_status id status now db).1
IsKeyed-preserved team title body client_id status id now db h = (
  create_ticket-IsKeyed team title body client_id now db h,
  update_status-IsKeyed id status now db h,
)

-- So does seeding the table, where three keys are left.
pub seed-IsKeyed :
    (now : ℕ) (db : Db) → IsKeyed db → db.last_ticket_id + 3 ≤ int64_max → IsKeyed (seed now db)
unfolding seed
seed-IsKeyed now db h = seed_rows-IsKeyed db.tickets now db h

Ascending-le : (low high : ℕ) (rows : List Ticket) → Ascending low rows high → low ≤ high
Ascending-le low high [] h = h
Ascending-le low high (t ∷ rows) h = omega (arith, Ascending-le t.id high rows h.1)

-- No row of an ordered table has an id above its bound.
first_above :
    (low high n : ℕ) (rows : List Ticket)
    → Ascending low rows high
    → high < n
    → first (has_id (pos n)) rows ≡ none
first_above low high n [] h k = refl
first_above low high n (t ∷ rows) h k =
    ground (arith, first_above t.id high n rows h.1 k, Ascending-le t.id high rows h.1)

first_new :
    (id : ℕ) (rows : List Ticket) (t : Ticket)
    → t.id ≡ id
    → first (has_id (pos id)) rows ≡ none
    → first (has_id (pos id)) (rows ++ t ∷ []) ≡ some t
first_new id rows t e h = ground (arith, first-append (has_id (pos id)) rows (t ∷ []))

has_id_ne : (j : ℤ) (t : Ticket) → j ≢ pos t.id → has_id j t ≡ false
has_id_ne (pos n) t ne = elim (Bool-cases (nat_eq t.id n)) [
  | inl e ↦ absurd (ne (ground arith))
  | inr e ↦ e
]
has_id_ne (negsuc n) t ne = refl

first_old :
    (j : ℤ) (rows : List Ticket) (t : Ticket)
    → j ≢ pos t.id
    → first (has_id j) (rows ++ t ∷ []) ≡ first (has_id j) rows
first_old j rows t ne = ground (arith, first-append (has_id j) rows (t ∷ []), has_id_ne j t ne)

module _ (team title body client_id : String) (now : ℕ) (db : Db) where
  -- A new ticket has the next id, the given texts verbatim and status "open"; it is what `create_ticket`
  -- returns and what `get_ticket` finds from then on under its id, if the keys of the table are in order
  -- and not used up.
  pub create_ticket_lem :
      IsKeyed db
      → db.last_ticket_id < int64_max
      → let id = db.last_ticket_id + 1 in
        let t = opened id team title body "open" client_id now in
        let (r, db') = create_ticket team title body client_id now db in
        (r ≡ ok (some t)) × (get_ticket (pos id) db' ≡ ok (some t))
  unfolding create_ticket insert_ticket get_ticket
  create_ticket_lem h room =
      let t : Ticket = opened (db.last_ticket_id + 1) team title body "open" client_id now in
      let new =
        first_new t.id db.tickets t refl
          (first_above 0 db.last_ticket_id t.id db.tickets h.ascending (omega arith)) in
      (ground (arith, new), ground (arith, new))

  -- Under every id but the next one `get_ticket` answers after `create_ticket` as before.
  pub get_ticket-create_ticket_ne :
      (j : ℤ)
      → j ≢ pos (db.last_ticket_id + 1)
      → get_ticket j (create_ticket team title body client_id now db).1 ≡ get_ticket j db
  unfolding create_ticket insert_ticket get_ticket
  get_ticket-create_ticket_ne j ne =
      let t : Ticket = opened (db.last_ticket_id + 1) team title body "open" client_id now in
      ground (arith, first_old j db.tickets t ne)
