-- ===== src/Audit/Limit.antt =====
-- `verify_chain` on a log that is longer than what it reads.
use mathlib.Core.List.{reverse-reverse, reverse-append}
use mcpgate.Prelude.{
  ◌<◌, String, ◌≡◌, ◌≢◌, sym, ap, ◌∙◌, subst, false, List, [], ◌∷◌, ◌++◌, ==_ne, length, take, drop,
  reverse, arith, length-append, length-reverse, take-append-drop, length-take_min, All,
}
use mcpgate.Crypto.{Crypto}
use mcpgate.Store.{Event, Db}
use mcpgate.Store.Events.{genesis, last_hash}
use mcpgate.Audit.{verify_from, chain_limit, verify_chain}
use mcpgate.Audit.Chain.{IsChained, IsChained-suffix, verified_events}

-- No event of the log has the hash that stands before the first one.
abbrev pub AvoidsGenesis : List Event → Type 0
AvoidsGenesis events = All (λ e. e.event_hash ≢ genesis) events

last_hash-ne-genesis :
    (start : String) (pre suf : List Event)
    → start ≢ genesis
    → AvoidsGenesis (pre ++ suf)
    → last_hash start pre ≢ genesis
last_hash-ne-genesis start [] suf s h = s
last_hash-ne-genesis start (e ∷ pre) suf s h = last_hash-ne-genesis e.event_hash pre suf h.0 h.1

module _ (c : Crypto) (key : String) where
  verify_from_headless :
      (pre suf : List Event)
      → IsChained c key genesis (pre ++ suf)
      → AvoidsGenesis (pre ++ suf)
      → 0 < length pre
      → 0 < length suf
      → verify_from c key genesis suf ≡ false
  unfolding verify_from
  verify_from_headless [] suf h a p q = absurd (omega arith)
  verify_from_headless (d ∷ pre) [] h a p q = absurd (omega arith)
  verify_from_headless (d ∷ pre) (e ∷ suf) h a p q = rw (
    (IsChained-suffix c key genesis (d ∷ pre) (e ∷ suf) h).0,
    ==_ne (last_hash d.event_hash pre) genesis
        (last_hash-ne-genesis d.event_hash pre (e ∷ suf) a.0 a.1),
  )

  -- `verify_chain` answers False on an intact log of more than a million events, of which none has the
  -- hash of 64 zeros: it reads the newest million only and holds the first of them to that hash.
  pub verify_chain_long :
      (db : Db)
      → IsChained c key genesis db.events
      → AvoidsGenesis db.events
      → chain_limit < length db.events
      → verify_chain c key db ≡ false
  verify_chain_long db h a long =
      let l = db.events in
      let old = reverse (drop chain_limit (reverse l)) in
      let new = reverse (take chain_limit (reverse l)) in
      let whole : l ≡ old ++ new =
        sym (reverse-reverse l)
        ∙ (ap reverse (sym (take-append-drop chain_limit (reverse l)))
            ∙ reverse-append (take chain_limit (reverse l)) (drop chain_limit (reverse l))) in
      let size : length new ≡ chain_limit =
        length-reverse (take chain_limit (reverse l))
        ∙ length-take_min chain_limit (reverse l) (omega (arith, length-reverse l)) in
      verified_events c key db
      ∙ verify_from_headless old new (subst (IsChained c key genesis) whole h)
          (subst AvoidsGenesis whole a) (omega (arith, ap length whole, length-append old new))
          (omega arith)
