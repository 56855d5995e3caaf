-- ===== src/Gateway/Pipeline/Probe.antt =====
-- What the audit trail tells a caller about the tickets that it may not see.
use mcpgate.Prelude.{
  ℕ, ◌≤◌, String, ◌≡◌, ◌↔◌, refl, sym, ◌∙◌, subst, true, Option, none, some, List, [], ◌∷◌, ◌++◌,
  pos, int64_max, contains, first, lookup, arith, leb, if◌then◌else◌, ◌==◌,
}
use mcpgate.Result.{Code, Wait, fault, ok, err}
use mcpgate.Value
use mcpgate.Store.{Ticket, Event, Db}
use mcpgate.Store.Tickets.{has_id, get_ticket}
use mcpgate.Store.Events.{in_teams}
use mcpgate.Gateway.Pipeline.{
  Invocation, Gateway, State, Readings, raised, subject_team, team_of, team_of_id, invoke,
}
use mcpgate.Gateway.Pipeline.Audited.{IsAudited, invoke-IsAudited}

-- No ticket with the id is one of another team.
abbrev pub NoneHidden : List String → ℕ → Db → Type 0
NoneHidden teams id db =
    (t : Ticket) → first (has_id (pos id)) db.tickets ≡ some t → contains teams t.team ≡ true

owner : Option Ticket → Option String
owner none = none
owner (some t) = some t.team

-- The event of a refused `get_ticket` call for the id.
abbrev pub Answered : Gateway → Invocation → Readings → State → List String → ℕ → Type 0
Answered g i r s teams id =
    (e : Event) × ((invoke g i r s).1.db.events ≡ s.db.events ++ e ∷ [])
    × ((in_teams (some teams) e.body.subject_team ≡ true) ↔ NoneHidden teams id s.db)

module _ (teams : List String) where
  owner_iff :
      (o : Option Ticket)
      → (in_teams (some teams) (owner o) ≡ true)
        ↔ ((t : Ticket) → o ≡ some t → contains teams t.team ≡ true)
  unfolding owner
  owner_iff none = (λ h t e. cc, λ h. refl)
  owner_iff (some u) =
      (λ h t e. subst (λ o. in_teams (some teams) (owner o) ≡ true) e h, λ h. h u refl)

  module _ (g : Gateway) (i : Invocation) (r : Readings) (s : State) (id : ℕ) where
    subject_team-get :
        i.tool ≡ "get_ticket"
        → lookup "ticket_id" i.args ≡ some (Value.integer (pos id))
        → id ≤ int64_max
        → subject_team i.tool i.args s.db ≡ owner (first (has_id (pos id)) s.db.tickets)
    unfolding subject_team team_of_id team_of get_ticket owner ◌==◌
    subject_team-get tool args fits = rw (tool, args) (found (first (has_id (pos id)) s.db.tickets))
      where
        found :
            (o : Option Ticket) → team_of (if leb id int64_max then ok o else err fault) ≡ owner o
        found none = ground arith
        found (some t) = ground arith

    -- The audit trail answers whether another team's ticket has an id: a `get_ticket` call for the id
    -- that is refused, for whatever reason, leaves an event that a reader with a scope is shown exactly if
    -- no ticket of a team outside the scope has that id.
    pub probe_shown :
        (code : Code) (wait : Option Wait)
        → i.tool ≡ "get_ticket"
        → lookup "ticket_id" i.args ≡ some (Value.integer (pos id))
        → id ≤ int64_max
        → (invoke g i r s).0 ≡ raised code wait
        → Answered g i r s teams id
    probe_shown code wait tool args fits refused =
        let (e, added, _, _, _, subject, _, _, _, _) =
          subst (λ o. IsAudited g i s (o, (invoke g i r s).1)) refused (invoke-IsAudited g i r s) in
        (
          e,
          added,
          subst (λ t. (in_teams (some teams) t ≡ true) ↔ NoneHidden teams id s.db)
              (sym (subject ∙ subject_team-get tool args fits))
              (owner_iff (first (has_id (pos id)) s.db.tickets)),
        )
