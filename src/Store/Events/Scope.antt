-- ===== src/Store/Events/Scope.antt =====
-- What a reader of the audit trail is shown.
use mcpgate.Prelude.{
  ◌≤◌, String, ◌≡◌, ◌↔◌, Bool, true, ◌&&◌, none, some, List, select, take, reverse, length, arith,
  In, In-take, In-reverse, In-select, take_all, length-reverse, All, All-In, length-select_le,
  select-select, ℕ, length-take_le,
}
use mcpgate.Store.{Event, Db}
use mcpgate.Store.Events.{in_session, in_teams, audit_events}
use mcpgate.Store.Narrowed.{narrowed}

-- A reader with a scope is shown at most `limit` events, all of them events of the log whose subject is
-- one of the reader's teams or none.
pub audit_events-IsScoped :
    (limit : ℕ) (teams : List String) (db : Db)
    → (length (audit_events none limit (some teams) db) ≤ limit)
      × All
          (λ e. In e db.events × (in_teams (some teams) e.body.subject_team ≡ true))
          (audit_events none limit (some teams) db)
unfolding audit_events
audit_events-IsScoped limit teams db =
    let p : Event → Bool = λ d. true && in_teams (some teams) d.body.subject_team in
    let l : List Event = select p db.events in
    (
      length-take_le limit (reverse l),
      All-In _ (take limit (reverse l))
          (λ e m. (In-select p e db.events).0 ((In-reverse e l).0 (In-take limit e (reverse l) m))),
    )

-- Where the log has at most `limit` events, a reader with a scope is shown an event exactly if the log
-- holds it and its subject is one of the reader's teams or none.
pub audit_events_iff :
    (limit : ℕ) (teams : List String) (db : Db) (e : Event)
    → length db.events ≤ limit
    → In e (audit_events none limit (some teams) db)
      ↔ (In e db.events × (in_teams (some teams) e.body.subject_team ≡ true))
unfolding audit_events
audit_events_iff limit teams db e fits =
    let p : Event → Bool = λ d. true && in_teams (some teams) d.body.subject_team in
    let l : List Event = select p db.events in
    (
      λ m. (In-select p e db.events).0 ((In-reverse e l).0 (In-take limit e (reverse l) m)),
      λ h.
          rw
            (take_all limit (reverse l)
              (omega (arith, length-reverse l, length-select_le p db.events)))
            ((In-reverse e l).1 ((In-select p e db.events).1 h)),
    )

-- A reader with a scope sees of the log what it sees of the log without the events about other teams.
pub audit_events-narrowed :
    (limit : ℕ) (teams : List String) (db : Db)
    → audit_events none limit (some teams) (narrowed teams db)
      ≡ audit_events none limit (some teams) db
unfolding audit_events
audit_events-narrowed limit teams db = rw (
    select-select (λ (e : Event). in_session none e && in_teams (some teams) e.body.subject_team)
      (λ (e : Event). in_teams (some teams) e.body.subject_team) db.events (λ e h. h))
