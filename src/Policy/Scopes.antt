-- ===== src/Policy/Scopes.antt =====
-- What the policy grants: scopes within the client's, a tool only to the holder of its scope.
use mathlib.Core.Bool.{false≢true}
use mcpgate.Prelude.{
  String, ◌≡◌, ◌↔◌, refl, ◌∙◌, true, false, Option, none, some, List, [], ◌∷◌, ==_iff, ==_refl, sym,
  contains, is_subset, lookup, arith, inl, inr, Bool-cases,
}
use mcpgate.Policy.{
  ClientPolicy, ToolPolicy, Policy, unknown_client, scope_escalation, Permission, granted, denied,
  client, authorize_for, authorize_scopes, require_tool,
}
use mcpgate.Policy.Order.{IsSorted, sorted_set, sorted_set-IsSorted, contains-sorted_set}

-- Every text of `xs` stands in `ys`.
abbrev pub IsWithin : List String → List String → Type 0
IsWithin xs ys = (k : String) → contains xs k ≡ true → contains ys k ≡ true

contains_of_subset :
    (xs ys : List String) (k : String)
    → is_subset xs ys ≡ true
    → contains xs k ≡ true
    → contains ys k ≡ true
contains_of_subset [] ys k h m = cc
contains_of_subset (x ∷ xs) ys k h m = ground (arith, ==_iff k x, contains_of_subset xs ys k)

pub is_subset-IsWithin : (xs ys : List String) → is_subset xs ys ≡ true → IsWithin xs ys
is_subset-IsWithin xs ys h k = contains_of_subset xs ys k h

pub IsWithin-is_subset : (xs ys : List String) → IsWithin xs ys → is_subset xs ys ≡ true
IsWithin-is_subset [] ys h = refl
IsWithin-is_subset (x ∷ xs) ys h =
    rw (h x (rw ==_refl), IsWithin-is_subset xs ys (λ k m. h k (ground arith)))

-- What `authorize_scopes` answers, in terms of membership alone.
pub data Authorized (p : Policy) (requested : List String)
    : Option ClientPolicy → Permission (List String) → Type 0 where
  stranger : Authorized p requested none (denied unknown_client)
  escalation :
      (c : ClientPolicy) (k : String)
      → contains requested k ≡ true
      → contains c.scopes k ≡ false
      → Authorized p requested (some c) (denied scope_escalation)
  within :
      (c : ClientPolicy) (scopes : List String)
      → IsWithin requested c.scopes
      → IsSorted scopes
      → ((k : String) → contains scopes k ≡ contains requested k)
      → Authorized p requested (some c) (granted scopes)

outside :
    (xs ys : List String)
    → is_subset xs ys ≡ false
    → (k : String) × (contains xs k ≡ true) × (contains ys k ≡ false)
outside [] ys h = absurd (false≢true (sym h))
outside (x ∷ xs) ys h = elim (Bool-cases (contains ys x)) [
  | inl held ↦ let rest = outside xs ys (ground arith) in (rest.0, ground (arith, rest.1), rest.2)
  | inr missing ↦ (x, rw ==_refl, missing)
]

-- `authorize_scopes` refuses an unknown client; it refuses a request that names a scope which the
-- client does not hold; any other request it grants, as a sorted list without repeats of exactly the
-- scopes requested.
pub authorize_scopes-Authorized :
    (p : Policy) (client_id : String) (requested : List String)
    → Authorized p requested (client p client_id) (authorize_scopes p client_id requested)
unfolding authorize_scopes
authorize_scopes-Authorized p client_id requested = go (client p client_id)
  where
    go : (c : Option ClientPolicy) → Authorized p requested c (authorize_for c requested)
    go none = stranger
    go (some c) = elim (Bool-cases (is_subset requested c.scopes)) [
      | inl h ↦ rw h (
          within c (sorted_set requested) (is_subset-IsWithin requested c.scopes h)
            (sorted_set-IsSorted requested) (λ k. contains-sorted_set k requested))
      | inr h ↦ let bad = outside requested c.scopes h in rw h (escalation c bad.0 bad.1 bad.2)
    ]

-- `require_tool` grants a tool with the rule under its name, and does so exactly when there is such a
-- rule whose scope is among the caller's.
pub require_tool_iff :
    (p : Policy) (tool : String) (scopes : List String) (rule : ToolPolicy)
    → (require_tool p tool scopes ≡ granted rule)
      ↔ ((lookup tool p.tools ≡ some rule) × (contains scopes rule.scope ≡ true))
unfolding require_tool
require_tool_iff p tool scopes rule = (λ h. ground arith, λ h. ground arith)

granted-injective : {xs ys : List String} → granted xs ≡ granted ys → xs ≡ ys
granted-injective h = cc

grant_bounds :
    {p : Policy} {requested : List String} {o : Option ClientPolicy} {a : Permission (List String)}
    → Authorized p requested o a
    → (scopes : List String) → a ≡ granted scopes
    → (c : ClientPolicy) × (o ≡ some c) × IsWithin scopes c.scopes × IsWithin scopes requested
grant_bounds stranger scopes h = cc
grant_bounds (escalation c k m n) scopes h = cc
grant_bounds (within c sorted inside _ same) scopes h =
    let e = granted-injective h in
    (c, refl, λ k m. inside k (sym (same k) ∙ rw e m), λ k m. sym (same k) ∙ rw e m)

-- What is granted names only scopes of a client of the policy, and only scopes requested.
pub granted-IsWithin :
    (p : Policy) (client_id : String) (requested scopes : List String)
    → authorize_scopes p client_id requested ≡ granted scopes
    → (c : ClientPolicy) × (client p client_id ≡ some c)
      × IsWithin scopes c.scopes
      × IsWithin scopes requested
granted-IsWithin p client_id requested scopes h =
    grant_bounds (authorize_scopes-Authorized p client_id requested) scopes h
