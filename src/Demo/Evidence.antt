-- ===== src/Demo/Evidence.antt =====
-- What the demo's checks show of any session of calls that do not write to old tickets.
use mcpgate.Prelude.{
  String, ◌≡◌, refl, sym, ap, ◌∙◌, subst, true, Option, some, List, [], ◌∷◌, ◌++◌, ◌==◌, ==_iff,
  ==_refl, length, length-append, All, arith, inl, inr, Bool-cases,
}
use mcpgate.Value.{Args, of_args, loads}
use mcpgate.Result.{code_text}
use mcpgate.Audit.{Step, safe_args, is_redacted}
use mcpgate.Gateway.Pipeline.{
  Invocation, Gateway, State, Readings, Outcome, returned, raised, crashed, invoke,
}
use mcpgate.Gateway.Pipeline.Audited.{step_for, serve}
use mcpgate.Gateway.Pipeline.Session.{told, transcript, names_this, names_one, AllNamed}
use mcpgate.Demo.{session, run_attempts, unless_crashed, body_in, body_of_args, hidden, all_hidden}

-- A call after which the session goes on has not crashed.
goes_on :
    (o : Outcome) (rest : Option State) (s' : State)
    → unless_crashed o rest ≡ some s'
    → (rest ≡ some s') × ((g : Gateway) (i : Invocation) (s : State) → length (told g i s o) ≡ 1)
unfolding unless_crashed
goes_on (returned reply) rest s' h = (h, λ g i s. refl)
goes_on (raised code wait) rest s' h = (h, λ g i s. refl)
goes_on crashed rest s' h = cc

-- A session that did not crash is one that was served.
pub run_attempts-serve :
    (g : Gateway) (calls : List (Invocation × Readings)) (s s' : State)
    → run_attempts g calls s ≡ some s'
    → serve g calls s ≡ s'
unfolding run_attempts serve
run_attempts-serve g [] s s' h = cc
run_attempts-serve g ((i, r) ∷ calls) s s' h =
    run_attempts-serve g calls (invoke g i r s).1 s' (goes_on (invoke g i r s).0 _ s' h).0

-- Every call is one of the demo's session.
abbrev pub AllOfSession : List (Invocation × Readings) → Type 0
AllOfSession calls = All (λ c. c.0.session_id ≡ some session) calls

session_named : names_one (some session) ≡ true
unfolding ◌==◌
session_named = refl

pub AllOfSession-AllNamed :
    (calls : List (Invocation × Readings)) → AllOfSession calls → AllNamed calls
AllOfSession-AllNamed [] h = tt
AllOfSession-AllNamed (c ∷ calls) h =
    (ap names_one h.0 ∙ session_named, AllOfSession-AllNamed calls h.1)

-- A session that did not crash has a step for every call.
pub length-transcript :
    (g : Gateway) (calls : List (Invocation × Readings)) (s s' : State)
    → AllOfSession calls
    → run_attempts g calls s ≡ some s'
    → length (transcript g session calls s) ≡ length calls
unfolding run_attempts transcript
length-transcript g [] s s' all h = refl
length-transcript g ((i, r) ∷ calls) s s' all h =
    let (more, one) = goes_on (invoke g i r s).0 _ s' h in
    let this : names_this session i.session_id ≡ true =
      ap (names_this session) all.0 ∙ ==_refl session in
    rw this (
      length-append (told g i s (invoke g i r s).0) (transcript g session calls (invoke g i r s).1)
      ∙ omega (arith, one g i s, length-transcript g calls (invoke g i r s).1 s' all.1 more))

body_redacted : is_redacted "body" ≡ true
unfolding is_redacted
body_redacted = refl

hidden_body : (args : Args) → hidden (body_in (of_args (safe_args args))) ≡ true
unfolding hidden body_in of_args safe_args
hidden_body [] = refl
hidden_body ((k, v) ∷ args) = elim (Bool-cases (k == "body")) [
  | inl same ↦
      let named : is_redacted k ≡ true =
        subst (λ x. is_redacted x ≡ true) (sym ((==_iff k "body").0 same)) body_redacted in
      rw (same, named) (==_refl "[REDACTED]")
  | inr other ↦ rw other (hidden_body args)
]

all_hidden-append :
    (xs ys : List Step) → all_hidden xs ≡ true → all_hidden ys ≡ true → all_hidden (xs ++ ys) ≡ true
unfolding all_hidden
all_hidden-append [] ys h k = k
all_hidden-append (x ∷ xs) ys h k = ground (arith, all_hidden-append xs ys)

step_hidden :
    (g : Gateway) (i : Invocation) (s : State) (decision reason : String)
    → all_hidden (step_for g i s decision reason ∷ []) ≡ true
unfolding all_hidden body_of_args loads
step_hidden g i s decision reason = rw (hidden_body i.args)

told_hidden :
    (g : Gateway) (i : Invocation) (s : State) (o : Outcome) → all_hidden (told g i s o) ≡ true
unfolding all_hidden
told_hidden g i s (returned reply) = step_hidden g i s "allow" "policy_satisfied"
told_hidden g i s (raised code wait) = step_hidden g i s "deny" (code_text code)
told_hidden g i s crashed = refl

no_step : all_hidden [] ≡ true
unfolding all_hidden
no_step = refl

-- No step of any calls shows a body.
pub transcript_hidden :
    (g : Gateway) (calls : List (Invocation × Readings)) (s : State)
    → all_hidden (transcript g session calls s) ≡ true
unfolding transcript
transcript_hidden g [] s = no_step
transcript_hidden g ((i, r) ∷ calls) s = elim (Bool-cases (names_this session i.session_id)) [
  | inl this ↦ rw this (
      all_hidden-append (told g i s (invoke g i r s).0) _ (told_hidden g i s (invoke g i r s).0)
        (transcript_hidden g calls (invoke g i r s).1))
  | inr other ↦ rw other (transcript_hidden g calls (invoke g i r s).1)
]
