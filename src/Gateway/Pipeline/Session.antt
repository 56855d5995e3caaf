-- ===== src/Gateway/Pipeline/Session.antt =====
-- A session is rebuilt from the audit trail: `AuditLog.reconstruct` after any calls.
use mathlib.Core.List.{append-nil, append_assoc, map-append}
use mcpgate.Prelude.{
  ℕ, ◌+◌, ◌≤◌, String, ◌≡◌, sym, ap, ◌∙◌, Bool, true, false, ◌&&◌, not, Option, none, some, List,
  [], ◌∷◌, ◌++◌, map, ◌==◌, length, select, select-append, take_all, length-select_le, All, arith,
  if◌then◌else◌,
}
use mcpgate.Result.{code_text}
use mcpgate.Store.{Event, Db}
use mcpgate.Store.Events.{in_teams, audit_events}
use mcpgate.Audit.{Step, step_of, reconstruct}
use mcpgate.Gateway.Pipeline.{
  Invocation, Gateway, State, Readings, Outcome, returned, raised, crashed, invoke,
}
use mcpgate.Gateway.Pipeline.Audited.{
  IsAudited, Leaves, named_session, step_for, invoke-IsAudited, serve, serve-length,
}

-- The steps of the log's events of a session.
abbrev pub steps_in : String → List Event → List Step
steps_in session events = map step_of (select (λ e. e.body.session_id == session) events)

-- A call with this `session_id` names a session, and the given one.
abbrev pub names_one : Option String → Bool
names_one none = false
names_one (some x) = not (x == "")

abbrev pub names_this : String → Option String → Bool
names_this session none = false
names_this session (some x) = x == session

-- The step that the caller of a call can tell, from what it asked and what it got.
abbrev pub told : Gateway → Invocation → State → Outcome → List Step
told g i s (returned reply) = step_for g i s "allow" "policy_satisfied" ∷ []
told g i s (raised code wait) = step_for g i s "deny" (code_text code) ∷ []
told g i s crashed = []

-- The steps of the calls of a session, in the order of the calls.
unfoldable pub transcript : Gateway → String → List (Invocation × Readings) → State → List Step
transcript g session [] s = []
transcript g session ((i, r) ∷ calls) s =
    (if names_this session i.session_id then told g i s (invoke g i r s).0 else [])
    ++ transcript g session calls (invoke g i r s).1

-- Every call names a session.
abbrev pub AllNamed : List (Invocation × Readings) → Type 0
AllNamed calls = All (λ c. names_one c.0.session_id ≡ true) calls

select-eq :
    (p q : Event → Bool) (events : List Event)
    → ((e : Event) → p e ≡ q e)
    → select p events ≡ select q events
select-eq p q events h = ap (λ (f : Event → Bool). select f events) (λ i e. h e i)

session_events :
    (session : String) (limit : ℕ) (db : Db)
    → (session == "") ≡ false
    → length db.events ≤ limit
    → audit_events (some session) limit none db
      ≡ select (λ e. e.body.session_id == session) db.events
unfolding audit_events
session_events session limit db h few =
    let p : Event → Bool = λ e.
      (if false then true else e.body.session_id == session) && in_teams none e.body.subject_team in
    rw h (
      take_all limit (select p db.events) (omega (arith, length-select_le p db.events))
      ∙ select-eq p (λ e. e.body.session_id == session) db.events (λ e. ground arith))

pub reconstruct-steps :
    (session : String) (db : Db)
    → (session == "") ≡ false
    → length db.events ≤ 10_000
    → reconstruct session db ≡ steps_in session db.events
unfolding reconstruct
reconstruct-steps session db h few = ap (map step_of) (session_events session 10_000 db h few)

pub steps_in-append :
    (session : String) (events : List Event) (e : Event)
    → steps_in session (events ++ e ∷ [])
      ≡ steps_in session events ++ (if e.body.session_id == session then step_of e ∷ [] else [])
steps_in-append session events e =
    ap (map step_of) (select-append (λ (d : Event). d.body.session_id == session) events (e ∷ []))
    ∙ (map-append step_of (select (λ d. d.body.session_id == session) events) _
        ∙ ap (λ (l : List Step). steps_in session events ++ l) (ground arith))

named_is :
    (session : String) (o : Option String) (actual : String)
    → names_one o ≡ true
    → actual ≡ named_session o actual
    → (actual == session) ≡ names_this session o
named_is session none actual named h = cc
named_is session (some x) actual named h = ground arith

module _ (g : Gateway) (session : String) (i : Invocation) (s : State) where
  grows_by :
      (decision reason : String) (s' : State)
      → names_one i.session_id ≡ true
      → Leaves g i s decision reason s'
      → steps_in session s'.db.events
        ≡ steps_in session s.db.events
          ++ (if names_this session i.session_id then step_for g i s decision reason ∷ [] else [])
  grows_by decision reason s' named (e, grown, _, _, _, _, _, step, given, _) =
      rw (grown, sym step, sym (named_is session i.session_id e.body.session_id named given))
        (steps_in-append session s.db.events e)

  audited_step :
      (o : Outcome) (s' : State)
      → names_one i.session_id ≡ true
      → IsAudited g i s (o, s')
      → steps_in session s'.db.events
        ≡ steps_in session s.db.events
          ++ (if names_this session i.session_id then told g i s o else [])
  audited_step (returned reply) s' named h = grows_by "allow" "policy_satisfied" s' named h
  audited_step (raised code wait) s' named h = grows_by "deny" (code_text code) s' named h
  audited_step crashed s' named h = rw h (ground (arith, append-nil (steps_in session s.db.events)))

serve-steps :
    (g : Gateway) (session : String) (calls : List (Invocation × Readings)) (s : State)
    → AllNamed calls
    → steps_in session (serve g calls s).db.events
      ≡ steps_in session s.db.events ++ transcript g session calls s
unfolding serve transcript
serve-steps g session [] s named = sym (append-nil (steps_in session s.db.events))
serve-steps g session ((i, r) ∷ calls) s named =
    let s' = (invoke g i r s).1 in
    let one = if names_this session i.session_id then told g i s (invoke g i r s).0 else [] in
    serve-steps g session calls s' named.1
    ∙ (ap (λ (l : List Step). l ++ transcript g session calls s')
          (audited_step g session i s (invoke g i r s).0 s' named.0 (invoke-IsAudited g i r s))
        ∙ append_assoc (steps_in session s.db.events) one (transcript g session calls s'))

-- A session is rebuilt from the audit trail exactly as its callers saw it: after any calls of any
-- sessions, each call naming its session, `reconstruct` lists the steps that it listed before and then
-- one step for each call of the session that did not crash, in the order of the calls, with the call's
-- tool, action and redacted arguments and with the decision and reason that the call's outcome shows,
-- if the log holds no more events in the end than `reconstruct` reads.
pub reconstruct-serve :
    (g : Gateway) (session : String) (calls : List (Invocation × Readings)) (s : State)
    → (session == "") ≡ false
    → AllNamed calls
    → length s.db.events + length calls ≤ 10_000
    → reconstruct session (serve g calls s).db
      ≡ reconstruct session s.db ++ transcript g session calls s
reconstruct-serve g session calls s h named few =
    reconstruct-steps session (serve g calls s).db h (omega (arith, serve-length g calls s))
    ∙ (serve-steps g session calls s named
        ∙ ap (λ (l : List Step). l ++ transcript g session calls s)
            (sym (reconstruct-steps session s.db h (omega arith))))
