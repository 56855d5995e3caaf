-- ===== src/Audit/Chain.antt =====
-- The chain of hashes: what `record` keeps, and what `verify_chain` answers on a log.
use mathlib.Core.List.{reverse-reverse}
use mcpgate.Prelude.{
  ℕ, ◌≤◌, String, ◌≡◌, ◌↔◌, refl, ap, true, ◌&&◌, none, List, [], ◌∷◌, ◌++◌, ==_iff, length, take,
  select, reverse, arith, take_all, length-append, length-reverse,
}
use mcpgate.Crypto.{Crypto}
use mcpgate.Store.{Event, Db}
use mcpgate.Store.Events.{
  append_audit, genesis, last_hash, last_audit_hash, in_session, in_teams, audit_events,
}
use mcpgate.Audit.{canonical, Entry, record_event, verify_from, chain_limit, verify_chain}

-- Every event names the hash of the one before it, `start` for the first, and carries the HMAC of its
-- own columns.
abbrev pub IsChained : Crypto → String → String → List Event → Type 0
IsChained c key start [] = Unit
IsChained c key start (e ∷ events) =
    (e.body.previous_hash ≡ start)
    × (c.hmac_sha256 key (canonical e.body) ≡ e.event_hash)
    × IsChained c key e.event_hash events

module _ (c : Crypto) (key : String) where
  pub IsChained-append :
      (start : String) (events : List Event) (e : Event)
      → IsChained c key start events
      → e.body.previous_hash ≡ last_hash start events
      → c.hmac_sha256 key (canonical e.body) ≡ e.event_hash
      → IsChained c key start (events ++ e ∷ [])
  IsChained-append start [] e h p q = (p, q, tt)
  IsChained-append start (d ∷ events) e h p q =
      (h.0, h.1, IsChained-append d.event_hash events e h.2 p q)

  -- Recording an event keeps the whole log chained.
  pub record_event-IsChained :
      (e : Entry) (now : ℕ) (db : Db)
      → IsChained c key genesis db.events
      → IsChained c key genesis (record_event c key e now db).1.events
  unfolding record_event append_audit last_audit_hash
  record_event-IsChained e now db h = IsChained-append genesis db.events _ h refl refl

  pub verify_from_iff :
      (start : String) (events : List Event)
      → (verify_from c key start events ≡ true) ↔ IsChained c key start events
  unfolding verify_from
  verify_from_iff start [] = (λ h. tt, λ h. refl)
  verify_from_iff start (e ∷ events) = (
    λ h. ground (
      arith,
      ==_iff e.body.previous_hash start,
      ==_iff (c.hmac_sha256 key (canonical e.body)) e.event_hash,
      (verify_from_iff e.event_hash events).0,
    ),
    λ h. ground (
      arith,
      ==_iff e.body.previous_hash start,
      ==_iff (c.hmac_sha256 key (canonical e.body)) e.event_hash,
      (verify_from_iff e.event_hash events).1 h.2,
    ),
  )

select_every :
    (events : List Event)
    → select (λ e. in_session none e && in_teams none e.body.subject_team) events ≡ events
select_every [] = refl
select_every (e ∷ events) = ap (λ (l : List Event). e ∷ l) (select_every events)

-- What `verify_chain` reads: the newest events, at most `chain_limit`, in the order of the log.
pub verified_events :
    (c : Crypto) (key : String) (db : Db)
    → verify_chain c key db
      ≡ verify_from c key genesis (reverse (take chain_limit (reverse db.events)))
unfolding verify_chain audit_events
verified_events c key db =
    ap (λ (l : List Event). verify_from c key genesis (reverse (take chain_limit (reverse l))))
      (select_every db.events)

pub verify_chain-empty :
    (c : Crypto) (key : String) (db : Db) → db.events ≡ [] → verify_chain c key db ≡ true
unfolding verify_chain verify_from audit_events
verify_chain-empty c key db h = rw h refl

-- On a log of at most a million events, `verify_chain` answers True exactly when the log is chained
-- from the first event on.
pub verify_chain_iff :
    (c : Crypto) (key : String) (db : Db)
    → length db.events ≤ chain_limit
    → (verify_chain c key db ≡ true) ↔ IsChained c key genesis db.events
verify_chain_iff c key db fits =
    rw
      (
        verified_events c key db,
        take_all chain_limit (reverse db.events) (omega (arith, length-reverse db.events)),
        reverse-reverse db.events,
      )
      (verify_from_iff c key genesis db.events)

module _ (c : Crypto) (key : String) where
  IsChained-prefix :
      (start : String) (xs ys : List Event)
      → IsChained c key start (xs ++ ys)
      → IsChained c key start xs
  IsChained-prefix start [] ys h = tt
  IsChained-prefix start (x ∷ xs) ys h = (h.0, h.1, IsChained-prefix x.event_hash xs ys h.2)

  pub IsChained-suffix :
      (start : String) (xs ys : List Event)
      → IsChained c key start (xs ++ ys)
      → IsChained c key (last_hash start xs) ys
  IsChained-suffix start [] ys h = h
  IsChained-suffix start (x ∷ xs) ys h = IsChained-suffix x.event_hash xs ys h.2

  -- `verify_chain` does not see that the newest events of a log were deleted: what is left of a log that
  -- verifies, at most a million events, verifies too.
  pub verify_chain_truncated :
      (db : Db) (kept deleted : List Event)
      → length (kept ++ deleted) ≤ chain_limit
      → verify_chain c key (record db { events = kept ++ deleted }) ≡ true
      → verify_chain c key (record db { events = kept }) ≡ true
  verify_chain_truncated db kept deleted fits h =
      (verify_chain_iff c key (record db { events = kept })
          (omega (arith, length-append kept deleted))).1
        (IsChained-prefix genesis kept deleted
          ((verify_chain_iff c key (record db { events = kept ++ deleted }) fits).0 h))
