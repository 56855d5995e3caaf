-- ===== src/Server/Options/Announced.antt =====
-- The scopes that the server announces are those that the policy grants.
use mathlib.Core.Option.{none-ne-some}
use mcpgate.Prelude.{
  String, ◌≡◌, ◌↔◌, refl, sym, ap, ◌∙◌, true, ◌||◌, none, some, List, [], ◌∷◌, ◌++◌, ◌==◌, ==_iff,
  ==_refl, lookup, contains, arith, inl, inr, Bool-cases,
}
use mcpgate.Policy.{ClientPolicy, Policy, client, granted, authorize_scopes}
use mcpgate.Policy.Order.{IsSorted, sorted_set, sorted_set-IsSorted, contains-sorted_set}
use mcpgate.Policy.Scopes.{granted-IsWithin}
use mcpgate.Config.{Settings}
use mcpgate.Gateway.Pipeline.{Gateway}
use mcpgate.Server.Options.{all_scopes, valid_scopes, server_options}

-- No client is filed twice: the clients are a dict.
abbrev pub IsDict : List (String × ClientPolicy) → Type 0
IsDict [] = Unit
IsDict ((k, c) ∷ clients) = (lookup k clients ≡ none) × IsDict clients

contains-append :
    (xs ys : List String) (k : String) → contains (xs ++ ys) k ≡ contains xs k || contains ys k
contains-append [] ys k = refl
contains-append (x ∷ xs) ys k = ground (arith, contains-append xs ys k)

-- A client that holds the scope, and whom the list files under `client_id`.
abbrev IsHeld : String → List (String × ClientPolicy) → Type 0
IsHeld k clients =
    (client_id : String) × (c : ClientPolicy) × (lookup client_id clients ≡ some c)
    × (contains c.scopes k ≡ true)

IsHeld-later :
    (j k : String) (c : ClientPolicy) (clients : List (String × ClientPolicy))
    → lookup j clients ≡ none
    → IsHeld k clients
    → IsHeld k ((j, c) ∷ clients)
IsHeld-later j k c clients fresh (client_id, c', found, holds) =
    elim (Bool-cases (client_id == j)) [
      | inl same ↦ absurd (
          none-ne-some c'
            (sym fresh ∙ (ap (λ i. lookup i clients) (sym ((==_iff client_id j).0 same)) ∙ found)))
      | inr other ↦ (client_id, c', rw other found, holds)
    ]

all_scopes-IsHeld :
    (clients : List (String × ClientPolicy)) (k : String)
    → IsDict clients
    → contains (all_scopes clients) k ≡ true
    → IsHeld k clients
unfolding all_scopes
all_scopes-IsHeld [] k dict h = cc
all_scopes-IsHeld ((j, c) ∷ clients) k (fresh, dict) h = elim (Bool-cases (contains c.scopes k)) [
  | inl holds ↦ (j, c, rw (==_refl) refl, holds)
  | inr lacks ↦ IsHeld-later j k c clients fresh (
      all_scopes-IsHeld clients k dict
        (ground (arith, contains-append c.scopes (all_scopes clients) k, h, lacks)))
]

announced :
    (clients : List (String × ClientPolicy)) (client_id k : String) (c : ClientPolicy)
    → lookup client_id clients ≡ some c
    → contains c.scopes k ≡ true
    → contains (all_scopes clients) k ≡ true
unfolding all_scopes
announced [] client_id k c found holds = cc
announced ((j, d) ∷ clients) client_id k c found holds = elim (Bool-cases (client_id == j)) [
  | inl same ↦ ground (arith, same, found, holds, contains-append d.scopes (all_scopes clients) k)
  | inr other ↦ ground (
    arith,
    announced clients client_id k c (ground (arith, found, other)) holds,
    contains-append d.scopes (all_scopes clients) k,
  )
]

granted_one :
    (p : Policy) (client_id k : String) (c : ClientPolicy)
    → client p client_id ≡ some c
    → contains c.scopes k ≡ true
    → authorize_scopes p client_id (k ∷ []) ≡ granted (k ∷ [])
unfolding authorize_scopes sorted_set client
granted_one p client_id k c found holds = rw (found, holds) refl

-- The server announces, sorted and each once, exactly the scopes that the policy grants to some client that
-- asks for them, where no client is filed twice.
pub valid_scopes_iff {ℓ} :
    {F : Type ℓ} (settings : Settings F) (g : Gateway) (k : String)
    → IsDict g.policy.clients
    → IsSorted (server_options settings g).auth.client_registration_options.scopes
      × ((contains (server_options settings g).auth.client_registration_options.scopes k ≡ true) ↔ (
          (client_id : String) × (authorize_scopes g.policy client_id (k ∷ []) ≡ granted (k ∷ []))))
unfolding server_options valid_scopes client
valid_scopes_iff settings g k dict = (
  sorted_set-IsSorted (all_scopes g.policy.clients),
  (
    λ h.
        let (client_id, c, found, holds) =
          all_scopes-IsHeld g.policy.clients k dict
            (sym (contains-sorted_set k (all_scopes g.policy.clients)) ∙ h) in
        (client_id, granted_one g.policy client_id k c found holds),
    λ (client_id, given).
        let (c, found, within, asked) =
          granted-IsWithin g.policy client_id (k ∷ []) (k ∷ []) given in
        contains-sorted_set k (all_scopes g.policy.clients)
        ∙ announced g.policy.clients client_id k c found (within k (rw ==_refl refl)),
  ),
)
