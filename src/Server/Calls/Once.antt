-- ===== src/Server/Calls/Once.antt =====
-- Every call that reaches the server leaves one event, whoever refuses it.
use Prim.Native.Char.{Char}
use Prim.Native.String.compare
use text.Mathlib.Text.{is_eq}
use text.Mathlib.TextLemmas.{cons-append}
use mcpgate.Prelude.{
  ℕ, String, ◌≡◌, refl, sym, ap, subst, ◌∙◌, Bool, true, false, Option, none, some, [], ◌∷◌, ◌++◌,
  Bool-cases, inl, inr, ◌==◌, if◌then◌else◌,
}
use mcpgate.Result.{Code, Wait}
use mcpgate.Value.{Args}
use mcpgate.Store.{Event}
use mcpgate.Store.Events.{append_audit, last_audit_hash}
use mcpgate.Audit.{record_event}
use mcpgate.Gateway.Dispatch.{Reply}
use mcpgate.Gateway.Pipeline.{Gateway, State, Readings, Outcome, returned, raised, crashed, invoke}
use mcpgate.Gateway.Pipeline.Audited.{IsAudited, named_session, invoke-IsAudited}
use mcpgate.Server.Errors.{Errors, already_audited}
use mcpgate.Server.Errors.Walk.{HoldsAudited, already_audited_lem}
use mcpgate.Server.Tools.{
  ToolCall, tool_name, Caller, gave, refusal, broke, named_wait, handled_of, mcp_session,
  invocation_of, handle,
}
use mcpgate.Server.Calls.{
  current_request_id, Plan, rejects, calls, Answer, replied, failed, Sdk, Request, record_rejection,
  settle, planned, audited, audited_call_tool,
}

-- What the server relies on: the SDK's own rejections hold no `AuditedToolError`, and the exception that
-- it raises for one of a tool's function has that exception in its chain. A call goes to the function of
-- its name, and a reply can be converted.
pub record IsRewrapping (sdk : Sdk) : Type 0 where
  pub rejections :
      (name : String) (args : Option Args) (errors : Errors) (i : ℕ)
      → sdk.plan name args ≡ rejects errors i
      → HoldsAudited errors i
      → ⊥
  pub named :
      (name : String) (args : Option Args) (call : ToolCall)
      → sdk.plan name args ≡ calls call
      → tool_name call ≡ name
  pub replies : (reply : Reply) → sdk.wrap (gave reply) ≡ replied reply
  pub refusals :
      (code : Code) (wait : Option Wait)
      → (errors : Errors) × (i : ℕ) × (sdk.wrap (refusal code wait) ≡ failed errors i)
        × HoldsAudited errors i
  pub faults :
      (errors : Errors) × (i : ℕ) × (sdk.wrap broke ≡ failed errors i) × (HoldsAudited errors i → ⊥)

abbrev pub decision_of_answer : Answer → String
decision_of_answer (replied reply) = "allow"
decision_of_answer (failed errors i) = "deny"

-- The session of a request, as its events name it.
abbrev pub request_session : Request → String
request_session q = mcp_session (current_request_id q.request_id)

-- No request's session is without a name.
pub mcp_session_full : (id : String) → (mcp_session id == "") ≡ false
unfolding ◌==◌
mcp_session_full id =
    ap (λ x. x == "") (cons-append (Char.char b'm' tt) "cp-" id)
    ∙ ap is_eq (compare.cons-nil (Char.char b'm' tt) _)

-- The log after a request: one more event, for its tool, in its session, with the decision that was
-- answered.
abbrev pub LeavesOne : Request → State → Answer × State → Type 0
LeavesOne q s (answer, s') =
    (e : Event) × (s'.db.events ≡ s.db.events ++ e ∷ [])
    × (e.body.previous_hash ≡ last_audit_hash s.db)
    × (e.body.tool ≡ q.name)
    × (e.body.session_id ≡ request_session q)
    × (e.body.decision ≡ decision_of_answer answer)

audited_true :
    (errors : Errors) (i : ℕ) → HoldsAudited errors i → already_audited errors i ≡ some true
audited_true errors i held =
    let (b, e, iff) = already_audited_lem errors i in e ∙ ap (λ (x : Bool). some x) (iff.1 held)

audited_false :
    (errors : Errors) (i : ℕ) → (HoldsAudited errors i → ⊥) → already_audited errors i ≡ some false
audited_false errors i free =
    let (b, e, iff) = already_audited_lem errors i in
    elim (Bool-cases b) [
      | inl yes_it ↦ absurd (free (iff.0 yes_it))
      | inr not_it ↦ e ∙ ap (λ (x : Bool). some x) not_it
    ]

module _ (g : Gateway) (q : Request) (now : ℕ) where
  -- The event of a call names the request's session.
  in_session_of :
      (id : String)
      → q.request_id ≡ some id
      → (session : String) → session ≡ named_session (some (mcp_session id)) session
      → session ≡ request_session q
  in_session_of id here session h =
      h
      ∙ (ap (λ b. if b then session else mcp_session id) (mcp_session_full id)
          ∙ ap (λ o. mcp_session (current_request_id o)) (sym here))

  -- A failure that nobody recorded is recorded here.
  unrecorded_leaves :
      (errors : Errors) (i : ℕ) (s : State)
      → (HoldsAudited errors i → ⊥)
      → LeavesOne q s (audited g q now (failed errors i, s))
  unfolding audited settle record_rejection record_event append_audit
  unrecorded_leaves errors i s free =
      rw (audited_false errors i free) (_, refl, refl, refl, refl, refl)

  recorded_kept :
      (errors : Errors) (i : ℕ) (s : State)
      → HoldsAudited errors i
      → audited g q now (failed errors i, s) ≡ (failed errors i, s)
  unfolding audited settle
  recorded_kept errors i s held = rw (audited_true errors i held) refl

  module _ (sdk : Sdk) (laws : IsRewrapping sdk) (s : State) where
    -- A tool's function that broke has recorded nothing.
    broke_leaves : LeavesOne q s (audited g q now (sdk.wrap broke, s))
    broke_leaves =
        let (errors, i, e, free) = laws.faults in rw e (unrecorded_leaves errors i s free)

    answered_leaves :
        (caller : Caller) (id : String) (call : ToolCall) (o : Outcome) (s' : State)
        → tool_name call ≡ q.name
        → q.request_id ≡ some id
        → IsAudited g (invocation_of caller id call) s (o, s')
        → LeavesOne q s (audited g q now (sdk.wrap (handled_of (o, s')).0, (handled_of (o, s')).1))
    unfolding audited
    answered_leaves caller id call (returned reply) s' name here
          (e, grown, tool, decision, reason, team, hash, _, session, _) =
        rw (laws.replies reply)
          (e, grown, hash, tool ∙ name, in_session_of id here e.body.session_id session, decision)
    answered_leaves caller id call (raised code wait) s' name here
          (e, grown, tool, decision, reason, team, hash, _, session, _) =
        let (errors, i, failure, held) = laws.refusals code (named_wait wait) in
        rw failure (
          subst (LeavesOne q s) (sym (recorded_kept errors i s' held)) (
            e,
            grown,
            hash,
            tool ∙ name,
            in_session_of id here e.body.session_id session,
            decision,
          ))
    answered_leaves caller id call crashed s' name here h = rw h broke_leaves

    handled_leaves :
        (r : Readings) (caller : Caller) (call : ToolCall) (id : Option String)
        → tool_name call ≡ q.name
        → q.request_id ≡ id
        → LeavesOne q s (
            audited g q now (
              sdk.wrap (handle g (some caller) id call r s).0,
              (handle g (some caller) id call r s).1,
            ))
    unfolding handle
    handled_leaves r caller call none name here = broke_leaves
    handled_leaves r caller call (some id) name here =
        let i = invocation_of caller id call in
        answered_leaves caller id call (invoke g i r s).0 (invoke g i r s).1 name here
          (invoke-IsAudited g i r s)

    planned_leaves :
        (r : Readings) (caller : Caller) (p : Plan)
        → q.caller ≡ some caller
        → sdk.plan q.name q.arguments ≡ p
        → LeavesOne q s (audited g q now (planned sdk g q r p s))
    unfolding planned
    planned_leaves r caller (rejects errors i) known e =
        unrecorded_leaves errors i s (laws.rejections q.name q.arguments errors i e)
    planned_leaves r caller (calls call) known e =
        subst
          (λ c. LeavesOne q s (
            audited g q now (
              sdk.wrap (handle g c q.request_id call r s).0,
              (handle g c q.request_id call r s).1,
            )))
          (sym known)
          (handled_leaves r caller call q.request_id (laws.named q.name q.arguments call e) refl)

  -- Every call of a request with a token leaves exactly one event, chained to the event before it, for
  -- the tool that was asked for and in the request's session: "allow" if the call is answered with a reply, "deny" if it fails,
  -- whether the SDK rejects it, a guard refuses it, or a fault breaks it, if the SDK wraps exceptions as
  -- it says.
  pub audited_call_tool_once :
      (sdk : Sdk) (r : Readings) (s : State) (caller : Caller)
      → IsRewrapping sdk
      → q.caller ≡ some caller
      → LeavesOne q s (audited_call_tool sdk g q r now s)
  unfolding audited_call_tool
  audited_call_tool_once sdk r s caller laws known =
      planned_leaves sdk laws s r caller (sdk.plan q.name q.arguments) known refl

  -- A request without a token whose call the SDK hands to the tool's function leaves nothing behind, no
  -- event either: the refusal is marked as one that was recorded, and nobody recorded it.
  pub audited_call_tool_unmarked :
      (sdk : Sdk) (r : Readings) (s : State) (call : ToolCall)
      → IsRewrapping sdk
      → sdk.plan q.name q.arguments ≡ calls call
      → q.caller ≡ none
      → (audited_call_tool sdk g q r now s).1 ≡ s
  unfolding audited_call_tool planned handle
  audited_call_tool_unmarked sdk r s call laws planned_call unknown =
      let (errors, i, failure, held) = laws.refusals Code.invalid_token none in
      subst (λ p. (audited g q now (planned sdk g q r p s)).1 ≡ s) (sym planned_call)
        (subst
          (λ c.
            (audited g q now (
              sdk.wrap (handle g c q.request_id call r s).0,
              (handle g c q.request_id call r s).1,
            )).1
            ≡ s)
          (sym unknown)
          (rw failure (ap (λ (x : Answer × State). x.1) (recorded_kept errors i s held))))
