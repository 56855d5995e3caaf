-- ===== src/Audit/Overlap.antt =====
-- `record` in its two steps, which take the store's lock one after the other, and two calls of it that
-- overlap: by two threads, or by two processes on the same database.
use mcpgate.Prelude.{
  ℕ, ◌+◌, ◌≤◌, String, ◌≡◌, ◌≢◌, refl, sym, ◌∙◌, false, List, [], ◌∷◌, ◌++◌, length, length-append,
  inl, inr, Bool-cases, arith,
}
use mcpgate.Crypto.{Crypto}
use mcpgate.Store.{Event, Db}
use mcpgate.Store.Events.{genesis, last_hash, last_audit_hash, append_audit}
use mcpgate.Audit.{Entry, body_of, canonical, record_event, chain_limit, verify_chain}
use mcpgate.Audit.Chain.{IsChained, IsChained-suffix, verify_chain_iff}

-- The second step: the event is appended, after a hash that was read before.
unfoldable pub append_after : Crypto → String → Entry → ℕ → String → Db → Event × Db
append_after c key e now previous_hash db =
    append_audit (body_of c e now previous_hash)
      (c.hmac_sha256 key (canonical (body_of c e now previous_hash))) db

-- Both calls read the last hash before one of them appends.
unfoldable pub record_overlapping : Crypto → String → Entry → ℕ → Entry → ℕ → Db → Db
record_overlapping c key e now f later db =
    let read = last_audit_hash db in
    (append_after c key f later read (append_after c key e now read db).1).1

module _ (c : Crypto) (key : String) (e : Entry) (now : ℕ) (db : Db) where
  -- A call of `record` that no other overlaps.
  record_event-append_after :
      record_event c key e now db ≡ append_after c key e now (last_audit_hash db) db
  unfolding record_event append_after
  record_event-append_after = refl

last_hash-append :
    (start : String) (events : List Event) (e : Event)
    → last_hash start (events ++ e ∷ []) ≡ e.event_hash
last_hash-append start [] e = refl
last_hash-append start (d ∷ events) e = last_hash-append d.event_hash events e

unchained :
    (c : Crypto) (key start : String) (events : List Event) (e f : Event)
    → f.body.previous_hash ≢ e.event_hash
    → IsChained c key start ((events ++ e ∷ []) ++ f ∷ [])
    → ⊥
unchained c key start events e f apart h = apart (
    (IsChained-suffix c key start (events ++ e ∷ []) (f ∷ []) h).0
    ∙ last_hash-append start events e)

two_fit :
    (n : ℕ) (events : List Event) (e f : Event)
    → length events + 2 ≤ n
    → length ((events ++ e ∷ []) ++ f ∷ []) ≤ n
two_fit n events e f h =
    omega (arith, length-append (events ++ e ∷ []) (f ∷ []), length-append events (e ∷ []), h)

-- Two calls of `record` that overlap break the log: `verify_chain` answers False on it, though nobody
-- touched it, if the log has no more than a million events then and the first event's hash is not the
-- hash of the event before it.
pub verify_chain-record_overlapping :
    (c : Crypto) (key : String) (e f : Entry) (now later : ℕ) (db : Db)
    → length db.events + 2 ≤ chain_limit
    → (append_after c key e now (last_audit_hash db) db).0.event_hash ≢ last_audit_hash db
    → verify_chain c key (record_overlapping c key e now f later db) ≡ false
unfolding record_overlapping append_after append_audit last_audit_hash
verify_chain-record_overlapping c key e f now later db fits apart =
    let db' = record_overlapping c key e now f later db in
    elim (Bool-cases (verify_chain c key db')) [
      | inr no_it ↦ no_it
      | inl yes_it ↦ absurd (
          unchained c key genesis db.events (append_after c key e now (last_audit_hash db) db).0 _
            (λ same. apart (sym same))
            ((verify_chain_iff c key db' (two_fit chain_limit db.events _ _ fits)).0 yes_it))
    ]
