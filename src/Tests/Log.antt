-- ===== src/Tests/Log.antt =====
-- The audit log's theorems at a log of two events, and at one of a million and one.
use mcpgate.Prelude.{
  ℕ, zero, suc, String, ◌≡◌, ◌↔◌, ◌⊎◌, refl, ap, true, false, List, [], ◌∷◌, ◌==◌, ne_of_test,
  length, map, inl, inr, arith,
}
use mcpgate.Value.{Value}
use mcpgate.Store.{Event, Db}
use mcpgate.Store.Events.{genesis, audit_events}
use mcpgate.Audit.{record_event, verify_from, verify_chain, codes, lower, canonical}
use mcpgate.Audit.Chain.{IsChained, verify_chain_iff, verify_chain_truncated}
use mcpgate.Audit.Limit.{AvoidsGenesis, verify_chain_long}
use mcpgate.Audit.Tamper.{Collision, SameLog, verify_chain_tampered}
use mcpgate.Audit.Redaction.{record_event_blind}
use mcpgate.Tests.World.{crypto, db, event, log, logged, entry_with}

logged_verifies : verify_chain crypto "a" logged ≡ true
unfolding verify_chain verify_from audit_events canonical ◌==◌
logged_verifies = refl

verify_chain_example : (verify_chain crypto "a" logged ≡ true) ↔ IsChained crypto "a" genesis log
verify_chain_example = verify_chain_iff crypto "a" logged (omega arith)

log-IsChained : IsChained crypto "a" genesis log
log-IsChained = verify_chain_example.0 logged_verifies

verify_chain_truncated_example :
    verify_chain crypto "a" (record logged { events = event 1 "get_ticket" genesis ∷ [] }) ≡ true
verify_chain_truncated_example =
    verify_chain_truncated crypto "a" logged (event 1 "get_ticket" genesis ∷ [])
      (event 2 "list_tickets" "get_ticket" ∷ []) (omega arith) logged_verifies

-- The first event under another tool's name.
abbrev edited : List Event
edited =
    record (event 1 "get_ticket" genesis) {
      body = record (event 1 "get_ticket" genesis).body { tool = "audit_recent" };
    }
    ∷ event 2 "list_tickets" "get_ticket"
    ∷ []

tampered_example :
    (verify_chain crypto "a" (record logged { events = edited }) ≡ false)
    ⊎ (SameLog edited log ⊎ Collision crypto "a" edited log)
tampered_example =
    verify_chain_tampered crypto "a" logged edited (omega arith) refl refl logged_verifies

-- The edit is found, since the toy HMAC covers the tool.
edit_found : verify_chain crypto "a" (record logged { events = edited }) ≡ false
unfolding verify_chain verify_from audit_events canonical ◌==◌
edit_found = refl

token_hidden : map lower (codes "token") ≡ codes "token"
unfolding lower
token_hidden = refl

record_event_blind_example :
    (record_event crypto "a" (entry_with "x") 3 logged).0.body
    ≡ record (record_event crypto "a" (entry_with "y") 3 logged).0.body {
      args_digest = (record_event crypto "a" (entry_with "x") 3 logged).0.body.args_digest;
    }
record_event_blind_example =
    record_event_blind crypto "a" (entry_with "x") (("token", Value.text "y") ∷ []) 3 logged
      (refl, inl (inr (inl token_hidden)), tt)

s_is_some : ("s" == "") ≡ false
unfolding ◌==◌
s_is_some = refl

-- `n` events in a chain that starts from a hash.
copies : String → ℕ → List Event
copies previous_hash zero = []
copies previous_hash (suc n) = event n "t" previous_hash ∷ copies "t" n

copies-IsChained :
    (previous_hash : String) (n : ℕ) → IsChained crypto "a" previous_hash (copies previous_hash n)
unfolding copies canonical
copies-IsChained previous_hash zero = tt
copies-IsChained previous_hash (suc n) = (refl, refl, copies-IsChained "t" n)

t_is_not_genesis : ("t" == genesis) ≡ false
unfolding ◌==◌
t_is_not_genesis = refl

copies-AvoidsGenesis : (previous_hash : String) (n : ℕ) → AvoidsGenesis (copies previous_hash n)
unfolding copies
copies-AvoidsGenesis previous_hash zero = tt
copies-AvoidsGenesis previous_hash (suc n) =
    (ne_of_test "t" genesis t_is_not_genesis, copies-AvoidsGenesis "t" n)

length-copies : (previous_hash : String) (n : ℕ) → length (copies previous_hash n) ≡ n
unfolding copies
length-copies previous_hash zero = refl
length-copies previous_hash (suc n) = ap suc (length-copies "t" n)

abbrev million_and_one : Db
million_and_one = record db { events = copies genesis 1_000_001; last_sequence = 1_000_001 }

verify_chain_long_example : verify_chain crypto "a" million_and_one ≡ false
verify_chain_long_example =
    verify_chain_long crypto "a" million_and_one (copies-IsChained genesis 1_000_001)
      (copies-AvoidsGenesis genesis 1_000_001) (omega (arith, length-copies genesis 1_000_001))
