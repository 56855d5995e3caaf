-- ===== src/Store/Tickets/Narrow.antt =====
-- The tickets table cut down to the rows that pass a test.
use mcpgate.Prelude.{
  ℕ, ◌+◌, ◌≤◌, String, ◌≡◌, refl, inl, inr, Bool, true, Option, none, some, List, [], ◌∷◌, ℤ, pos,
  negsuc, select, select-select, select-append, first, leb, contains, &&-true, int64_max,
  fits_int64, ◌∙◌, arith, Bool-cases, if◌then◌else◌,
}
use mcpgate.Result.{ok, ◌>>=◌}
use mcpgate.Store.{Ticket, Db}
use mcpgate.Store.Narrowed.{narrowed, narrowed_outcome}
use mcpgate.Store.Tickets.{
  has_id, has_status, select_tickets, list_tickets, get_ticket, opened, insert_ticket,
  create_ticket, set_status, update_status,
}
use mcpgate.Store.Tickets.Rows.{Ascending, IsKeyed, create_ticket_lem}
use mcpgate.Store.Tickets.Updates.{restamp, absent_below, negative_absent, update_status_found}

-- A row, if it passes the test.
abbrev pub kept : (Ticket → Bool) → Option Ticket → Option Ticket
kept p none = none
kept p (some t) = if p t then some t else none

module _ (p : Ticket → Bool) where
  Ascending-lower :
      (low low' high : ℕ) (rows : List Ticket)
      → low' ≤ low
      → Ascending low rows high
      → Ascending low' rows high
  Ascending-lower low low' high [] k h = omega arith
  Ascending-lower low low' high (t ∷ rows) k h = (omega arith, h.1)

  -- The keys that are left are in order.
  pub Ascending-select :
      (low high : ℕ) (rows : List Ticket)
      → Ascending low rows high
      → Ascending low (select p rows) high
  Ascending-select low high [] h = h
  Ascending-select low high (t ∷ rows) h = elim (Bool-cases (p t)) [
    | inl a ↦ rw a (h.0, Ascending-select t.id high rows h.1)
    | inr a ↦ rw a (
        Ascending-lower t.id low high (select p rows) (omega arith)
          (Ascending-select t.id high rows h.1))
  ]

  -- A search finds the row it found before, if that row is left.
  pub first-select :
      (id : ℤ) (low high : ℕ) (rows : List Ticket)
      → Ascending low rows high
      → first (has_id id) (select p rows) ≡ kept p (first (has_id id) rows)
  first-select (negsuc n) low high rows h =
      rw (negative_absent n (select p rows), negative_absent n rows)
  first-select (pos n) low high [] h = refl
  first-select (pos n) low high (t ∷ rows) h =
      ground (arith, first-select (pos n) t.id high rows h.1, absent_below t.id high n rows h.1)

  -- Restamping a row and leaving rows out commute, where the test does not look at the stamp.
  pub select-set_status :
      (id : ℤ) (status : String) (now : ℕ) (rows : List Ticket)
      → ((t : Ticket) → p (restamp status now t) ≡ p t)
      → select p (set_status id status now rows) ≡ set_status id status now (select p rows)
  unfolding set_status
  select-set_status id status now [] h = refl
  select-set_status id status now (t ∷ rows) h =
      ground (arith, select-set_status id status now rows h, h t)

module _ (teams : List String) (db : Db) where
  pub narrowed-IsKeyed : IsKeyed db → IsKeyed (narrowed teams db)
  narrowed-IsKeyed h = record {
    ascending = Ascending-select _ 0 db.last_ticket_id db.tickets h.ascending;
    bounded = h.bounded;
  }

  pub list_tickets-narrowed :
      (status : Option String)
      → list_tickets teams status (narrowed teams db) ≡ list_tickets teams status db
  unfolding list_tickets select_tickets
  list_tickets-narrowed status = go teams
    where
      go :
          (ts : List String)
          → select_tickets ts status (select (λ t. contains ts t.team) db.tickets)
            ≡ select_tickets ts status db.tickets
      go [] = refl
      go (team ∷ ts) =
          select-select _ _ db.tickets
            (λ t h. (&&-true (contains (team ∷ ts) t.team) (has_status status t) h).0)

  pub get_ticket-narrowed :
      (id : ℤ)
      → IsKeyed db
      → get_ticket id (narrowed teams db)
        ≡ (get_ticket id db >>= λ t. ok (kept (λ u. contains teams u.team) t))
  unfolding get_ticket
  get_ticket-narrowed id h = elim (Bool-cases (fits_int64 id)) [
    | inl fits ↦ rw (fits, first-select _ id 0 db.last_ticket_id db.tickets h.ascending)
    | inr bad ↦ rw bad
  ]

module _ (teams : List String) (now : ℕ) (db : Db) (keyed : IsKeyed db) where
  pub create_ticket-narrowed :
      (team title body client_id : String)
      → contains teams team ≡ true
      → create_ticket team title body client_id now (narrowed teams db)
        ≡ narrowed_outcome teams (create_ticket team title body client_id now db)
  unfolding create_ticket insert_ticket
  create_ticket-narrowed team title body client_id mine =
      let t : Ticket = opened (db.last_ticket_id + 1) team title body "open" client_id now in
      elim (Bool-cases (leb int64_max db.last_ticket_id)) [
        | inl full ↦ rw full
        | inr room ↦
            let a = create_ticket_lem team title body client_id now db keyed (ground arith) in
            let b =
              create_ticket_lem team title body client_id now (narrowed teams db)
                (narrowed-IsKeyed teams db keyed) (ground arith) in
            ground (
              arith,
              a.1,
              b.1,
              select-append (λ (u : Ticket). contains teams u.team) db.tickets (t ∷ []),
            )
      ]

  pub update_status-narrowed :
      (id : ℤ) (status : String) (t : Ticket)
      → get_ticket id db ≡ ok (some t)
      → contains teams t.team ≡ true
      → update_status id status now (narrowed teams db)
        ≡ narrowed_outcome teams (update_status id status now db)
  unfolding update_status get_ticket
  update_status-narrowed id status t found mine =
      let found' : get_ticket id (narrowed teams db) ≡ ok (some t) =
        get_ticket-narrowed teams db id keyed ∙ rw (found, mine) in
      ground (
        arith,
        update_status_found id status now db t found,
        update_status_found id status now (narrowed teams db) t found',
        select-set_status (λ (u : Ticket). contains teams u.team) id status now db.tickets
            (λ u. refl),
      )
