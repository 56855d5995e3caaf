-- ===== src/Audit/Redaction.antt =====
-- What an audit event keeps of the arguments, and what a reconstructed session shows.
use mathlib.Core.List.{append-nil}
use mcpgate.Prelude.{
  ℕ, ◌+◌, ◌≤◌, ◌<◌, String, ◌≡◌, ◌≢◌, refl, sym, ap, ◌∙◌, Bool, true, false, ◌&&◌, Option, none,
  some, List, [], ◌∷◌, ◌++◌, ◌==◌, ==_ne, ==_iff, Bool-cases, lookup, map, reverse, select, take,
  length, arith, if◌then◌else◌, take_all, length-append, select-append, length-select_le, ◌⊎◌, inl,
  inr,
}
use mcpgate.Value.{Value, text, object, Args, of_args, loads}
use mcpgate.Crypto.{Crypto}
use mcpgate.Store.{Event, Db}
use mcpgate.Store.Events.{append_audit, in_session, in_teams, audit_events}
use mcpgate.Audit.{
  codes, lower, is_redacted, safe_args, Entry, record_event, Step, step_of, reconstruct,
}

abbrev pub hide : String → Value → Value
hide k v = if is_redacted k then text "[REDACTED]" else v

pub hidden : String → Option Value → Option Value
hidden k none = none
hidden k (some v) = some (hide k v)

-- Every argument is kept under its name, its value hidden exactly under the redacted names.
pub lookup-safe_args :
    (k : String) (args : Args) → lookup k (safe_args args) ≡ hidden k (lookup k args)
unfolding safe_args hidden
lookup-safe_args k [] = refl
lookup-safe_args k ((j, v) ∷ args) = ground (arith, ==_iff k j, lookup-safe_args k args)

-- `body`, `token` or `client_secret`, in upper or lower case.
abbrev pub IsSecretName : String → Type 0
IsSecretName k =
    (map lower (codes k) ≡ codes "body")
    ⊎ ((map lower (codes k) ≡ codes "token") ⊎ (map lower (codes k) ≡ codes "client_secret"))

secret_redacted : (k : String) → IsSecretName k → is_redacted k ≡ true
unfolding is_redacted
secret_redacted k (inl h) = rw h refl
secret_redacted k (inr (inl h)) = rw h refl
secret_redacted k (inr (inr h)) = rw h refl

-- The same names in the same order, with the same values but under the secret names.
abbrev pub SameButHidden : Args → Args → Type 0
SameButHidden [] [] = Unit
SameButHidden [] (b ∷ bs) = ⊥
SameButHidden (a ∷ as') [] = ⊥
SameButHidden ((j, v) ∷ as') ((k, w) ∷ bs) =
    (j ≡ k) × (IsSecretName j ⊎ (v ≡ w)) × SameButHidden as' bs

safe_args_eq : (as' bs : Args) → SameButHidden as' bs → safe_args as' ≡ safe_args bs
unfolding safe_args
safe_args_eq [] [] h = refl
safe_args_eq [] (b ∷ bs) h = absurd h
safe_args_eq (a ∷ as') [] h = absurd h
safe_args_eq ((j, v) ∷ as') ((k, w) ∷ bs) (p, inl r, rest) =
    ground (arith, secret_redacted j r, safe_args_eq as' bs rest)
safe_args_eq ((j, v) ∷ as') ((k, w) ∷ bs) (p, inr q, rest) =
    ground (arith, safe_args_eq as' bs rest)

-- The event of a call shows nothing of the values of arguments named `body`, `token` or `client_secret`, in
-- upper or lower case, but their digest: of two calls that differ in such values only, every column that
-- the chain covers is the same except `args_digest` (`event_hash`, which follows from them, is not covered).
pub record_event_blind :
    (c : Crypto) (key : String) (e : Entry) (args : Args) (now : ℕ) (db : Db)
    → SameButHidden e.args args
    → (record_event c key e now db).0.body
      ≡ record (record_event c key (record e { args = args }) now db).0.body {
        args_digest = (record_event c key e now db).0.body.args_digest;
      }
unfolding record_event append_audit
record_event_blind c key e args now db h = ground (arith, safe_args_eq e.args args h)

-- The step that a reconstructed session shows of a call.
abbrev pub shown : Entry → ℕ → Step
shown e sequence = record {
  sequence = sequence;
  tool = e.tool;
  action = e.action;
  decision = e.decision;
  reason = e.reason;
  args = object (of_args (safe_args e.args));
}

map-append_one :
    (l : List Event) (e : Event) → map step_of (l ++ e ∷ []) ≡ map step_of l ++ step_of e ∷ []
map-append_one [] e = refl
map-append_one (d ∷ l) e = ap (λ (s : List Step). step_of d ∷ s) (map-append_one l e)

abbrev here_in : String → Event → Bool
here_in s e = in_session (some s) e && in_teams none e.body.subject_team

reconstruct_all :
    (s : String) (db : Db)
    → (s == "") ≡ false
    → length db.events ≤ 10_000
    → reconstruct s db ≡ map step_of (select (here_in s) db.events)
unfolding reconstruct audit_events
reconstruct_all s db ne fits =
    let l : List Event = select (here_in s) db.events in
    ap (λ (b : Bool). map step_of (take 10_000 (if b then reverse l else l))) ne
    ∙ ap (map step_of) (take_all 10_000 l (omega (arith, length-select_le (here_in s) db.events)))

select_one :
    (s : String) (e : Event)
    → (s == "") ≡ false
    → select (here_in s) (e ∷ []) ≡ (if e.body.session_id == s then e ∷ [] else [])
select_one s e ne = ground (arith, ne)

-- A session whose name is not empty, in a log of less than 10,000 events: recording one more event adds
-- its step to the end of the reconstruction of its session, with its arguments redacted, and changes no
-- other session.
pub reconstruct-record_event :
    (c : Crypto) (key s : String) (e : Entry) (now : ℕ) (db : Db)
    → s ≢ ""
    → length db.events < 10_000
    → reconstruct s (record_event c key e now db).1 ≡ (
        if e.session_id == s
        then reconstruct s db ++ shown e (db.last_sequence + 1) ∷ []
        else reconstruct s db)
unfolding record_event append_audit loads
reconstruct-record_event c key s e now db ne fits =
    let db' = (record_event c key e now db).1 in
    let new = (record_event c key e now db).0 in
    let test = ==_ne s "" ne in
    let grown : select (here_in s) db'.events
        ≡ select (here_in s) db.events ++ (if e.session_id == s then new ∷ [] else []) =
      select-append (here_in s) db.events (new ∷ [])
      ∙ ap (λ (l : List Event). select (here_in s) db.events ++ l) (select_one s new test) in
    reconstruct_all s db' test (omega (arith, length-append db.events (new ∷ [])))
    ∙ (ap (map step_of) grown ∙ elim (Bool-cases (e.session_id == s)) [
      | inl same ↦ rw same (
          map-append_one (select (here_in s) db.events) new
          ∙ ap (λ (l : List Step). l ++ shown e (db.last_sequence + 1) ∷ [])
              (sym (reconstruct_all s db test (omega arith))))
      | inr other ↦ rw (other, append-nil) (sym (reconstruct_all s db test (omega arith)))
    ])
