-- ===== src/Server/Calls/Worked.antt =====
-- The log after a server's work: requests that take their turns.
use mathlib.Core.List.{append-nil, append_assoc, map-append}
use mcpgate.Prelude.{
  ℕ, ◌+◌, String, ◌≡◌, refl, sym, ap, ◌∙◌, Bool, true, false, Option, none, some, List, [], ◌∷◌,
  ◌++◌, map, ◌==◌, length, length-append, All, arith, if◌then◌else◌,
}
use mcpgate.Store.{Event}
use mcpgate.Store.Events.{genesis}
use mcpgate.Audit.{Step, step_of}
use mcpgate.Audit.Chain.{IsChained, record_event-IsChained}
use mcpgate.Gateway.Pipeline.{Gateway, State, Readings, Outcome, returned, raised, crashed, invoke}
use mcpgate.Gateway.Pipeline.Audited.{invoke-IsChained}
use mcpgate.Gateway.Pipeline.Session.{steps_in, steps_in-append}
use mcpgate.Server.Errors.{already_audited}
use mcpgate.Server.Tools.{ToolCall, Caller, handled_of, invocation_of, handle}
use mcpgate.Server.Calls.{
  Plan, rejects, calls, Answer, replied, failed, Sdk, Request, settle, record_rejection, planned,
  audited, audited_call_tool,
}
use mcpgate.Server.Calls.Once.{
  IsRewrapping, LeavesOne, request_session, decision_of_answer, audited_call_tool_once,
}

-- A request's turn: what is read during it, and when a rejection is recorded.
pub record Turn : Type 0 where
  pub request : Request
  pub readings : Readings
  pub rejected_at : ℕ

module _ (sdk : Sdk) (g : Gateway) where
  abbrev pub answered : Turn → State → Answer × State
  answered t s = audited_call_tool sdk g t.request t.readings t.rejected_at s

  unfoldable pub work : List Turn → State → State
  work [] s = s
  work (t ∷ turns) s = work turns (answered t s).1

  -- The tool and the decision of each of a session's requests, as its caller knows them.
  unfoldable pub heard : String → List Turn → State → List (String × String)
  heard session [] s = []
  heard session (t ∷ turns) s =
      (if request_session t.request == session
        then (t.request.name, decision_of_answer (answered t s).0) ∷ []
        else [])
      ++ heard session turns (answered t s).1

-- A step's tool and decision.
abbrev pub seen : Step → String × String
seen step = (step.tool, step.decision)

-- The request has a token.
abbrev pub HasToken : Turn → Type 0
HasToken t = (caller : Caller) × (t.request.caller ≡ some caller)

module _ (g : Gateway) where
  abbrev KeepsChain : State → Type 0
  KeepsChain s = IsChained g.provider.crypto g.audit_key genesis s.db.events

  settle-KeepsChain :
      (q : Request) (now : ℕ) (b : Option Bool) (s : State)
      → KeepsChain s
      → KeepsChain (settle g q now b s)
  unfolding settle record_rejection
  settle-KeepsChain q now none s h = h
  settle-KeepsChain q now (some true) s h = h
  settle-KeepsChain q now (some false) s h =
      record_event-IsChained g.provider.crypto g.audit_key _ now s.db h

  audited-KeepsChain :
      (q : Request) (now : ℕ) (a : Answer × State)
      → KeepsChain a.1
      → KeepsChain (audited g q now a).1
  unfolding audited
  audited-KeepsChain q now (replied reply, s) h = h
  audited-KeepsChain q now (failed errors i, s) h =
      settle-KeepsChain q now (already_audited errors i) s h

  handled_of-KeepsChain : (o : Outcome × State) → KeepsChain o.1 → KeepsChain (handled_of o).1
  handled_of-KeepsChain (returned reply, s) h = h
  handled_of-KeepsChain (raised code wait, s) h = h
  handled_of-KeepsChain (crashed, s) h = h

  handle-KeepsChain :
      (caller : Option Caller) (id : Option String) (call : ToolCall) (r : Readings) (s : State)
      → KeepsChain s
      → KeepsChain (handle g caller id call r s).1
  unfolding handle
  handle-KeepsChain none id call r s h = h
  handle-KeepsChain (some caller) none call r s h = h
  handle-KeepsChain (some caller) (some id) call r s h =
      handled_of-KeepsChain (invoke g (invocation_of caller id call) r s)
        (invoke-IsChained g (invocation_of caller id call) r s h)

  planned-KeepsChain :
      (sdk : Sdk) (q : Request) (r : Readings) (p : Plan) (s : State)
      → KeepsChain s
      → KeepsChain (planned sdk g q r p s).1
  unfolding planned
  planned-KeepsChain sdk q r (rejects errors i) s h = h
  planned-KeepsChain sdk q r (calls call) s h = handle-KeepsChain q.caller q.request_id call r s h

  -- The server keeps the log chained.
  pub work-KeepsChain :
      (sdk : Sdk) (turns : List Turn) (s : State) → KeepsChain s → KeepsChain (work sdk g turns s)
  unfolding work audited_call_tool
  work-KeepsChain sdk [] s h = h
  work-KeepsChain sdk (t ∷ turns) s h = work-KeepsChain sdk turns (answered sdk g t s).1 (
      let plan = sdk.plan t.request.name t.request.arguments in
      audited-KeepsChain t.request t.rejected_at (planned sdk g t.request t.readings plan s)
        (planned-KeepsChain sdk t.request t.readings plan s h))

one_if : Bool → String × String → List (String × String)
one_if b x = if b then x ∷ [] else []

seen_if : (b : Bool) (st : Step) → map seen (if b then st ∷ [] else []) ≡ one_if b (seen st)
unfolding one_if
seen_if true st = refl
seen_if false st = refl

seen_same :
    (session : String) {here here' tool tool' decision decision' : String}
    → here ≡ here'
    → tool ≡ tool'
    → decision ≡ decision'
    → one_if (here == session) (tool, decision) ≡ one_if (here' == session) (tool', decision')
seen_same session a b c = λ i. one_if (a i == session) (b i, c i)

module _ (sdk : Sdk) (g : Gateway) (laws : IsRewrapping sdk) where
  -- One more event for each request.
  pub work-length :
      (turns : List Turn) (s : State)
      → All HasToken turns
      → length (work sdk g turns s).db.events ≡ length s.db.events + length turns
  unfolding work
  work-length [] s tokens = omega arith
  work-length (t ∷ turns) s ((caller, known), tokens) =
      let s' = (answered sdk g t s).1 in
      let (e, grown, _, _, _, _) =
        audited_call_tool_once g t.request t.rejected_at sdk t.readings s caller laws known in
      omega
        (arith, work-length turns s' tokens, ap length grown, length-append s.db.events (e ∷ []))

  turn-steps :
      (session : String) (q : Request) (s : State) (a : Answer × State)
      → LeavesOne q s a
      → map seen (steps_in session a.1.db.events)
        ≡ map seen (steps_in session s.db.events)
          ++ (if request_session q == session then (q.name, decision_of_answer a.0) ∷ [] else [])
  unfolding one_if
  turn-steps session q s (answer, s') (e, grown, hash, tool, here, decision) =
      ap (λ (l : List Event). map seen (steps_in session l)) grown
      ∙ (ap (map seen) (steps_in-append session s.db.events e)
          ∙ (map-append seen (steps_in session s.db.events) _
              ∙ ap (λ (l : List (String × String)). map seen (steps_in session s.db.events) ++ l)
                  (seen_if (e.body.session_id == session) (step_of e)
                    ∙ seen_same session here tool decision)))

  pub work-steps :
      (session : String) (turns : List Turn) (s : State)
      → All HasToken turns
      → map seen (steps_in session (work sdk g turns s).db.events)
        ≡ map seen (steps_in session s.db.events) ++ heard sdk g session turns s
  unfolding work heard
  work-steps session [] s tokens = sym (append-nil (map seen (steps_in session s.db.events)))
  work-steps session (t ∷ turns) s ((caller, known), tokens) =
      let s' = (answered sdk g t s).1 in
      work-steps session turns s' tokens
      ∙ (ap (λ (l : List (String × String)). l ++ heard sdk g session turns s')
            (turn-steps session t.request s (answered sdk g t s)
              (audited_call_tool_once g t.request t.rejected_at sdk t.readings s caller laws known))
          ∙ append_assoc (map seen (steps_in session s.db.events)) _ (heard sdk g session turns s'))
