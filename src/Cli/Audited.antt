-- ===== src/Cli/Audited.antt =====
-- What the `audit` command prints after a server's work.
use mcpgate.Prelude.{
  ℕ, ◌≤◌, String, ◌≡◌, refl, sym, ap, subst, ◌∙◌, Bool, true, false, none, some, List, [], ◌++◌,
  ◌==◌, map, length, All, arith, if◌then◌else◌,
}
use mcpgate.Store.{Event, Db}
use mcpgate.Store.Events.{genesis}
use mcpgate.Store.Tickets.{seed}
use mcpgate.Store.Tickets.Frame.{seed-SameElsewhere}
use mcpgate.Audit.{reconstruct, verify_chain}
use mcpgate.Audit.Chain.{IsChained, verify_chain_iff}
use mcpgate.Gateway.Pipeline.{Gateway, State}
use mcpgate.Gateway.Pipeline.Session.{steps_in, reconstruct-steps}
use mcpgate.Runtime.Started.{create_runtime-again}
use mcpgate.Server.Calls.{Sdk}
use mcpgate.Server.Calls.Once.{IsRewrapping}
use mcpgate.Server.Calls.Worked.{
  Turn, HasToken, work, heard, seen, work-length, work-steps, work-KeepsChain,
}
use mcpgate.Cli.{Process, start, Printed, audited_in, audit}

module _ (sdk : Sdk) (laws : IsRewrapping sdk) (g : Gateway) (session : String) (turns : List Turn)
    (s : State) (later : ℕ) (named : (session == "") ≡ false) (tokens : All HasToken turns)
    (fresh : s.db.events ≡ []) (few : length turns ≤ 10_000) where
  short : length (work sdk g turns s).db.events ≤ 10_000
  short = omega (arith, few, work-length sdk g laws turns s tokens, ap length fresh)

  -- The database that the later process starts on.
  abbrev left : Db
  left = seed later (work sdk g turns s).db

  same : left.events ≡ (work sdk g turns s).db.events
  same = (seed-SameElsewhere later (work sdk g turns s).db).events

  rebuilt : map seen (reconstruct session left) ≡ heard sdk g session turns s
  rebuilt =
      ap (map seen) (reconstruct-steps session left named (omega (arith, short, ap length same)))
      ∙ (ap (λ (l : List Event). map seen (steps_in session l)) same
          ∙ (work-steps sdk g laws session turns s tokens
              ∙ ap
                  (λ (l : List Event). map seen (steps_in session l) ++ heard sdk g session turns s)
                  fresh))

  valid : verify_chain g.provider.crypto g.audit_key left ≡ true
  valid =
      (verify_chain_iff g.provider.crypto g.audit_key left (omega (arith, short, ap length same))).1
        (subst (IsChained g.provider.crypto g.audit_key genesis) (sym same) (
          work-KeepsChain g sdk turns s
            (subst (IsChained g.provider.crypto g.audit_key genesis) (sym fresh) tt)))

if_apart :
    (verify : Bool) (b : Bool)
    → b ≡ true
    → (if verify then some b else none) ≡ (if verify then some true else none)
if_apart verify b h = rw h refl

-- What the `audit` command prints after a server's work: where the log was empty when the server started,
-- and the server was then sent at most 10,000 requests, each with a token, a process that starts later on
-- the database that is left prints for a session exactly one step for each of its requests, in order, with the
-- tool that was asked for and "allow" or "deny" as the request was answered or failed, and, asked to
-- verify, that the chain is valid. This is if the SDK wraps exceptions as it says.
pub audit-work :
    (p : Process) (later : ℕ) (session : String) (verify : Bool) (sdk : Sdk) (turns : List Turn)
    (db : Db) (g : Gateway) (s : State)
    → IsRewrapping sdk
    → start p db ≡ some (g, s)
    → db.events ≡ []
    → (session == "") ≡ false
    → All HasToken turns
    → length turns ≤ 10_000
    → (printed : Printed) × (audit (record p { now = later }) session verify (work sdk g turns s).db
        ≡ some printed)
      × (map seen printed.steps ≡ heard sdk g session turns s)
      × (printed.chain_valid ≡ (if verify then some true else none))
unfolding audit audited_in
audit-work p later session verify sdk turns db g s laws started empty named tokens few =
    let (limiter, begun, again) =
      create_runtime-again p.crypto p.policy p.settings p.now later db (work sdk g turns s).db
        p.rate_capacity p.rate_refill (g, s) started in
    let fresh : s.db.events ≡ [] =
      ap (λ (x : Gateway × State). x.1.db.events) begun
      ∙ ((seed-SameElsewhere p.now db).events ∙ empty) in
    let after = seed later (work sdk g turns s).db in
    let holds : verify_chain p.crypto p.settings.jwt_secret after ≡ true =
      sym (ap (λ (x : Gateway × State). verify_chain x.0.provider.crypto x.0.audit_key after) begun)
      ∙ valid sdk laws g session turns s later named tokens fresh few in
    (
      _,
      ap (audited_in session verify) again,
      rebuilt sdk laws g session turns s later named tokens fresh few,
      if_apart verify (verify_chain p.crypto p.settings.jwt_secret after) holds,
    )
