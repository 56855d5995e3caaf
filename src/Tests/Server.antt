-- ===== src/Tests/Server.antt =====
-- The server's theorems at requests to the small deployment, with a toy SDK.
use mathlib.Core.Bool.{false≢true}
use mcpgate.Prelude.{
  ℕ, String, ◌≡◌, ◌↔◌, ◌⊎◌, refl, Bool, true, false, Option, none, some, [], ◌∷◌, ℤ, pos, ◌==◌,
  subst, ==_iff, sym, ap, ◌∙◌, if◌then◌else◌, below_one,
}
use mcpgate.Result.{Code, refuse}
use mcpgate.Value.{Args}
use mcpgate.Gateway.Validate.{validate_inputs}
use mcpgate.Server.Errors.{Errors, walk, already_audited}
use mcpgate.Server.Errors.Walk.{HoldsAudited, already_audited_lem}
use mcpgate.Server.Tools.{
  Caller, ToolCall, list_tickets, get_ticket, tool_name, args_of_call, Handled, gave, refusal,
  broke,
}
use mcpgate.Server.Tools.Agreement.{FitsDeclared, tools_agree}
use mcpgate.Server.Calls.{
  Plan, rejects, calls, Answer, replied, failed, Sdk, Request, audited_call_tool,
}
use mcpgate.Server.Calls.Once.{
  IsRewrapping, LeavesOne, audited_call_tool_once, audited_call_tool_unmarked,
}
use mcpgate.Tests.World.{gateway, state, readings}

-- A `ToolError` whose cause is an `AuditedToolError`, and one that has nothing behind it.
abbrev wrapped : Errors
wrapped =
    record { audited = false; cause = some 1; context = some 1 }
    ∷ record { audited = true; cause = none; context = none }
    ∷ []

abbrev bare : Errors
bare = record { audited = false; cause = none; context = none } ∷ []

already_audited_example :
    (b : Bool) × (already_audited wrapped 0 ≡ some b) × ((b ≡ true) ↔ HoldsAudited wrapped 0)
already_audited_example = already_audited_lem wrapped 0

wrapped_walks : already_audited wrapped 0 ≡ some true
unfolding already_audited walk
wrapped_walks = refl

bare_walks : already_audited bare 0 ≡ some false
unfolding already_audited walk
bare_walks = refl

wrapped_holds : HoldsAudited wrapped 0
wrapped_holds =
    let (b, e, iff) = already_audited_lem wrapped 0 in
    let same : some b ≡ some true = sym e ∙ wrapped_walks in iff.0 (cc same)

bare_free : HoldsAudited bare 0 → ⊥
bare_free h =
    let (b, e, iff) = already_audited_lem bare 0 in
    let same : some b ≡ some false = sym e ∙ bare_walks in false≢true (cc (same, iff.1 h))

-- It knows one tool, and rejects every other name.
abbrev toy_plan : String → Option Args → Plan
toy_plan name args = if name == "list_tickets" then calls (list_tickets none) else rejects bare 0

abbrev toy_wrap : Handled → Answer
toy_wrap (gave reply) = replied reply
toy_wrap (refusal code wait) = failed wrapped 0
toy_wrap broke = failed bare 0

rejects-injective : {e f : Errors} {i j : ℕ} → rejects e i ≡ rejects f j → (e ≡ f) × (i ≡ j)
rejects-injective h = (cc, cc)

same_place : {e f : Errors} {i j : ℕ} → (e ≡ f) × (i ≡ j) → HoldsAudited f j → HoldsAudited e i
same_place {e} {f} {i} {j} (p, q) held =
    subst (λ x. HoldsAudited e x) (sym q) (subst (λ x. HoldsAudited x j) (sym p) held)

rejected :
    (known : Bool) (errors : Errors) (i : ℕ)
    → (if known then calls (list_tickets none) else rejects bare 0) ≡ rejects errors i
    → HoldsAudited errors i
    → ⊥
rejected true errors i h held = cc
rejected false errors i h held = bare_free (same_place (rejects-injective h) held)

called :
    (known : Bool) (call : ToolCall)
    → (if known then calls (list_tickets none) else rejects bare 0) ≡ calls call
    → (known ≡ true) × (call ≡ list_tickets none)
called true call h = (refl, cc)
called false call h = cc

called_named :
    (name : String) (call : ToolCall) → toy_plan name none ≡ calls call → tool_name call ≡ name
called_named name call h =
    let (known, same) = called (name == "list_tickets") call h in
    ap tool_name same ∙ sym ((==_iff name "list_tickets").0 known)

abbrev pub sdk : Sdk
sdk = record { plan = toy_plan; wrap = toy_wrap }

pub sdk-IsRewrapping : IsRewrapping sdk
sdk-IsRewrapping = record {
  rejections = λ name args errors i h held. rejected (name == "list_tickets") errors i h held;
  named = λ name args call h. called_named name call h;
  replies = λ reply. refl;
  refusals = λ code wait. (wrapped, 0, refl, wrapped_holds);
  faults = (bare, 0, refl, bare_free);
}

-- A call with Ann's token, one without a token, and one of a tool that there is not.
abbrev pub caller : Caller
caller = record { token = "jwt"; client_id = "ann" }

abbrev pub request : String → Option Caller → Request
request name c = record { name = name; arguments = some []; caller = c; request_id = some "1" }

once_example :
    LeavesOne
      (request "drop_table" (some caller))
      state
      (audited_call_tool sdk gateway (request "drop_table" (some caller)) readings 9 state)
once_example =
    audited_call_tool_once gateway (request "drop_table" (some caller)) 9 sdk readings state caller
      sdk-IsRewrapping refl

listed : toy_plan "list_tickets" (some []) ≡ calls (list_tickets none)
unfolding ◌==◌
listed = refl

unmarked_example :
    (audited_call_tool sdk gateway (request "list_tickets" none) readings 9 state).1 ≡ state
unmarked_example =
    audited_call_tool_unmarked gateway (request "list_tickets" none) 9 sdk readings state
      (list_tickets none) sdk-IsRewrapping listed refl

agree_example :
    (FitsDeclared (validate_inputs "get_ticket" (args_of_call (get_ticket (pos 0)))))
    ⊎ ((id : ℤ) × (get_ticket (pos 0) ≡ get_ticket id)
        × (below_one id ≡ true)
        × (validate_inputs "get_ticket" (args_of_call (get_ticket (pos 0)))
            ≡ refuse Code.invalid_argument_type))
agree_example = tools_agree (get_ticket (pos 0))
