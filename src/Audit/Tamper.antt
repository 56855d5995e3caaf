-- ===== src/Audit/Tamper.antt =====
-- What a log that verifies says of its events: with the newest hash known, there is no other.
use mcpgate.Prelude.{
  ◌≤◌, String, ◌≡◌, ◌≢◌, ◌⊎◌, inl, inr, refl, sym, ap, ◌∙◌, true, false, Option, none, some, List,
  [], ◌∷◌, length, arith, Bool-cases,
}
use mcpgate.Value.{Message-discrete}
use mcpgate.Crypto.{Crypto}
use mcpgate.Store.{Body, Event, Db}
use mcpgate.Store.Events.{genesis, last_hash}
use mcpgate.Audit.{canonical, chain_limit, verify_chain, or_null}
use mcpgate.Audit.Chain.{IsChained, verify_chain_iff}

-- Two events have different texts with one HMAC under the log's key.
abbrev pub Collide : Crypto → String → Event → Event → Type 0
Collide c key d e =
    (canonical d.body ≢ canonical e.body)
    × (c.hmac_sha256 key (canonical d.body) ≡ c.hmac_sha256 key (canonical e.body))

-- Somewhere two events that stand at the same place of the two logs do.
abbrev pub Collision : Crypto → String → List Event → List Event → Type 0
Collision c key [] l = ⊥
Collision c key (d ∷ k) [] = ⊥
Collision c key (d ∷ k) (e ∷ l) = Collide c key d e ⊎ Collision c key k l

-- The same events in the same order, but for their sequence numbers, which no HMAC covers.
abbrev pub SameLog : List Event → List Event → Type 0
SameLog [] [] = Unit
SameLog [] (e ∷ l) = ⊥
SameLog (d ∷ k) [] = ⊥
SameLog (d ∷ k) (e ∷ l) = (d.body ≡ e.body) × (d.event_hash ≡ e.event_hash) × SameLog k l

or_null-injective : (o o' : Option String) → or_null o ≡ or_null o' → o ≡ o'
unfolding or_null
or_null-injective none none h = refl
or_null-injective none (some t) h = cc
or_null-injective (some s) none h = cc
or_null-injective (some s) (some t) h = cc

-- The text that is signed determines every one of the twelve columns.
pub canonical-injective : (b b' : Body) → canonical b ≡ canonical b' → b ≡ b'
unfolding canonical
canonical-injective b b' h = ground (
  arith,
  or_null-injective b.client_id b'.client_id,
  or_null-injective b.subject_team b'.subject_team,
)

module _ (c : Crypto) (key : String) where
  -- The step of the induction: two chained events with one hash are the same, or collide.
  same_event :
      (d e : Event)
      → c.hmac_sha256 key (canonical d.body) ≡ d.event_hash
      → c.hmac_sha256 key (canonical e.body) ≡ e.event_hash
      → d.event_hash ≡ e.event_hash
      → (d.body ≡ e.body) ⊎ Collide c key d e
  same_event d e p q h = elim (Message-discrete (canonical d.body) (canonical e.body)) [
    | yes m ↦ inl (canonical-injective d.body e.body m)
    | no m ↦ inr (m, p ∙ (h ∙ sym q))
  ]

  same_log :
      (start start' : String) (k l : List Event)
      → IsChained c key start k
      → IsChained c key start' l
      → length k ≡ length l
      → last_hash start k ≡ last_hash start' l
      → ((start ≡ start') × SameLog k l) ⊎ Collision c key k l
  same_log start start' [] [] hk hl n h = inl (h, tt)
  same_log start start' [] (e ∷ l) hk hl n h = absurd (omega arith)
  same_log start start' (d ∷ k) [] hk hl n h = absurd (omega arith)
  same_log start start' (d ∷ k) (e ∷ l) hk hl n h =
      join (same_log d.event_hash e.event_hash k l hk.2 hl.2 (omega arith) h)
    where
      finish :
          d.event_hash ≡ e.event_hash
          → SameLog k l
          → (d.body ≡ e.body) ⊎ Collide c key d e
          → ((start ≡ start') × SameLog (d ∷ k) (e ∷ l)) ⊎ Collision c key (d ∷ k) (e ∷ l)
      finish p s (inl b) = inl (sym hk.0 ∙ (ap (λ (x : Body). x.previous_hash) b ∙ hl.0), (b, p, s))
      finish p s (inr x) = inr (inl x)

      join :
          ((d.event_hash ≡ e.event_hash) × SameLog k l) ⊎ Collision c key k l
          → ((start ≡ start') × SameLog (d ∷ k) (e ∷ l)) ⊎ Collision c key (d ∷ k) (e ∷ l)
      join (inl (p, s)) = finish p s (same_event d e hk.1 hl.1 p)
      join (inr x) = inr (inr x)

  -- Whoever edits, swaps or exchanges events of a log that verifies, at most a million events, and keeps
  -- their number and the newest hash, leaves a log that no longer verifies, unless the columns are the
  -- ones that were there or some new event has another text than the one in its place, with the same
  -- HMAC.
  pub verify_chain_tampered :
      (db : Db) (events : List Event)
      → length db.events ≤ chain_limit
      → length events ≡ length db.events
      → last_hash genesis events ≡ last_hash genesis db.events
      → verify_chain c key db ≡ true
      → (verify_chain c key (record db { events = events }) ≡ false)
        ⊎ (SameLog events db.events ⊎ Collision c key events db.events)
  verify_chain_tampered db events fits n h v =
      elim (Bool-cases (verify_chain c key (record db { events = events }))) [
        | inr broken ↦ inl broken
        | inl intact ↦ inr (
            without_start (
              same_log genesis genesis events db.events
                ((verify_chain_iff c key (record db { events = events }) (omega arith)).0 intact)
                ((verify_chain_iff c key db fits).0 v) n h))
      ]
    where
      without_start :
          ((genesis ≡ genesis) × SameLog events db.events) ⊎ Collision c key events db.events
          → SameLog events db.events ⊎ Collision c key events db.events
      without_start (inl (p, s)) = inl s
      without_start (inr x) = inr x
