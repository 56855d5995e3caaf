-- ===== src/Store/Tickets/Updates.antt =====
-- What an update changes, and what a listing holds.
use mathlib.Core.List.{append-nil}
use mathlib.Core.Bool.{false≢true}
use mcpgate.Prelude.{
  ℕ, ◌+◌, ◌≤◌, String, ◌≡◌, ◌≢◌, ◌↔◌, inl, inr, refl, Bool, true, false, ◌&&◌, Option, none, some,
  List, [], ◌∷◌, ℤ, pos, negsuc, int64_max, nat_eq, ◌==◌, contains, select, first, In, In-select,
  arith, Bool-cases, select-append, &&-true,
}
use mcpgate.Result.{ok}
use mcpgate.Store.{Ticket, Db}
use mcpgate.Store.Tickets.{
  has_id, has_status, list_tickets, get_ticket, opened, insert_ticket, create_ticket, set_status,
  update_status,
}
use mcpgate.Store.Tickets.Rows.{Ascending, IsKeyed}

abbrev pub restamp : String → ℕ → Ticket → Ticket
restamp status now t = record t { status = status; updated_at = now }

abbrev pub restamped : String → ℕ → Option Ticket → Option Ticket
restamped status now none = none
restamped status now (some t) = some (restamp status now t)

module _ (status : String) (now : ℕ) where
  first-set_status_self :
      (n : ℕ) (rows : List Ticket)
      → first (has_id (pos n)) (set_status (pos n) status now rows)
        ≡ restamped status now (first (has_id (pos n)) rows)
  unfolding set_status
  first-set_status_self n [] = refl
  first-set_status_self n (t ∷ rows) = ground (arith, first-set_status_self n rows)

  first-set_status_ne :
      (n j : ℕ) (rows : List Ticket)
      → n ≢ j
      → first (has_id (pos j)) (set_status (pos n) status now rows) ≡ first (has_id (pos j)) rows
  unfolding set_status
  first-set_status_ne n j [] h = refl
  first-set_status_ne n j (t ∷ rows) h = ground (arith, first-set_status_ne n j rows h)

  set_status_absent :
      (id : ℤ) (rows : List Ticket)
      → first (has_id id) rows ≡ none
      → set_status id status now rows ≡ rows
  unfolding set_status
  set_status_absent id [] h = refl
  set_status_absent id (t ∷ rows) h = ground (arith, set_status_absent id rows)

  -- An update of a bindable id restamps the row with that id: it returns that row as it then is, or None
  -- where there is none, which is also what `get_ticket` then answers.
  pub update_status_lem :
      (n : ℕ) (db : Db)
      → n ≤ int64_max
      → let (r, db') = update_status (pos n) status now db in
        (r ≡ ok (restamped status now (first (has_id (pos n)) db.tickets)))
        × (get_ticket (pos n) db' ≡ r)
  unfolding update_status get_ticket
  update_status_lem n db fits = (
    ground (arith, first-set_status_self n db.tickets),
    ground (arith, first-set_status_self n db.tickets),
  )

  -- An update of one bindable id does not change what `get_ticket` finds under another.
  pub get_ticket-update_status_ne :
      (n j : ℕ) (db : Db)
      → n ≤ int64_max
      → n ≢ j
      → get_ticket (pos j) (update_status (pos n) status now db).1 ≡ get_ticket (pos j) db
  unfolding update_status get_ticket
  get_ticket-update_status_ne n j db fits ne = ground (arith, first-set_status_ne n j db.tickets ne)

-- A listing holds a ticket exactly if the table does, its team is one of the given teams, and its
-- status is the given one, if one is given.
pub list_tickets_iff :
    (teams : List String) (status : Option String) (db : Db) (t : Ticket)
    → In t (list_tickets teams status db)
      ↔ (In t db.tickets × (contains teams t.team ≡ true) × (has_status status t ≡ true))
unfolding list_tickets
list_tickets_iff [] status db t = (λ m. elim m [ ], λ m. absurd (false≢true m.1))
list_tickets_iff (team ∷ teams) status db t =
    let p : Ticket → Bool = λ u. contains (team ∷ teams) u.team && has_status status u in
    (
      λ m.
          let both = (In-select p t db.tickets).0 m in
          let parts = &&-true (contains (team ∷ teams) t.team) (has_status status t) both.1 in
          (both.0, parts.0, parts.1),
      λ m. (In-select p t db.tickets).1 (m.0, rw (m.1, m.2)),
    )

-- The rows of one team.
abbrev pub team_rows : String → List Ticket → List Ticket
team_rows team rows = select (λ t. t.team == team) rows

pub absent_below :
    (low high n : ℕ) (rows : List Ticket)
    → Ascending low rows high
    → n ≤ low
    → first (has_id (pos n)) rows ≡ none
absent_below low high n [] h k = refl
absent_below low high n (t ∷ rows) h k = ground (arith, absent_below t.id high n rows h.1)

-- Restamping a row of another team leaves a team's rows as they are.
team_rows-set_status :
    (team status : String) (now n low high : ℕ) (rows : List Ticket) (t : Ticket)
    → Ascending low rows high
    → first (has_id (pos n)) rows ≡ some t
    → (t.team == team) ≡ false
    → team_rows team (set_status (pos n) status now rows) ≡ team_rows team rows
unfolding set_status
team_rows-set_status team status now n low high [] t h e k = refl
team_rows-set_status team status now n low high (r ∷ rows) t h e k =
    elim (Bool-cases (nat_eq r.id n)) [
      | inl same ↦
          ground
            (arith, set_status_absent status now (pos n) rows, absent_below r.id high n rows h.1)
      | inr other ↦ ground (arith, team_rows-set_status team status now n r.id high rows t h.1)
    ]

pub negative_absent : (n : ℕ) (rows : List Ticket) → first (has_id (negsuc n)) rows ≡ none
negative_absent n [] = refl
negative_absent n (t ∷ rows) = negative_absent n rows

-- An update of a row of another team leaves a team's rows as they are.
pub team_rows-update_status :
    (team status : String) (now : ℕ) (id : ℤ) (db : Db) (t : Ticket)
    → IsKeyed db
    → get_ticket id db ≡ ok (some t)
    → (t.team == team) ≡ false
    → team_rows team (update_status id status now db).1.tickets ≡ team_rows team db.tickets
unfolding update_status get_ticket
team_rows-update_status team status now (pos n) db t h e k =
    ground
      (arith, team_rows-set_status team status now n 0 db.last_ticket_id db.tickets t h.ascending)
team_rows-update_status team status now (negsuc n) db t h e k =
    ground (arith, set_status_absent status now (negsuc n) db.tickets, negative_absent n db.tickets)

-- A new ticket of another team leaves a team's rows as they are.
pub team_rows-create_ticket :
    (team owner title body client_id : String) (now : ℕ) (db : Db)
    → (owner == team) ≡ false
    → team_rows team (create_ticket owner title body client_id now db).1.tickets
      ≡ team_rows team db.tickets
unfolding create_ticket insert_ticket
team_rows-create_ticket team owner title body client_id now db k = ground (
  arith,
  select-append (λ (t : Ticket). t.team == team) db.tickets
      (opened (db.last_ticket_id + 1) owner title body "open" client_id now ∷ []),
  append-nil (team_rows team db.tickets),
)

-- An update of a row that `get_ticket` finds returns that row, restamped.
pub update_status_found :
    (id : ℤ) (status : String) (now : ℕ) (db : Db) (t : Ticket)
    → get_ticket id db ≡ ok (some t)
    → (update_status id status now db).0 ≡ ok (some (restamp status now t))
unfolding update_status get_ticket
update_status_found (pos n) status now db t h =
    ground (arith, first-set_status_self status now n db.tickets)
update_status_found (negsuc n) status now db t h =
    absurd (ground (arith, negative_absent n db.tickets))
