-- ===== src/Policy/Shipped.antt =====
-- policy.yaml: the policy that the repository ships.
use mcpgate.Prelude.{String, ◌≡◌, refl, some, List, [], ◌∷◌, ◌==◌}
use mcpgate.Policy
use mcpgate.Policy.{ClientPolicy, ToolPolicy, Policy, granted, authorize_scopes, require_tool}
use mcpgate.Policy.Order.{text_lt, sorted_set}

abbrev provisioned : String → String → List String → List String → String × ClientPolicy
provisioned client_id secret scopes teams =
    (client_id, record { client_id = client_id; secret = secret; scopes = scopes; teams = teams })

abbrev ruled : String → String → String → String × ToolPolicy
ruled name scope action = (name, record { name = name; scope = scope; action = action })

abbrev pub operator : ClientPolicy
operator = record {
  client_id = "operator-agent";
  secret = "operator-local-secret";
  scopes = "tickets:read" ∷ "tickets:write" ∷ [];
  teams = "alpha" ∷ "beta" ∷ [];
}

abbrev pub list_rule : ToolPolicy
list_rule = record { name = "list_tickets"; scope = "tickets:read"; action = "read" }

unfoldable pub shipped : Policy
shipped = record {
  clients =
      provisioned "readonly-agent" "readonly-local-secret" ("tickets:read" ∷ []) ("alpha" ∷ [])
      ∷ ("operator-agent", operator)
      ∷ provisioned "auditor-agent" "auditor-local-secret" ("tickets:read" ∷ "audit:read" ∷ [])
          ("alpha" ∷ "beta" ∷ "security" ∷ [])
      ∷ provisioned "alpha-auditor-agent" "alpha-auditor-local-secret"
          ("tickets:read" ∷ "audit:read" ∷ []) ("alpha" ∷ [])
      ∷ [];
  tools =
      ("list_tickets", list_rule)
      ∷ ruled "get_ticket" "tickets:read" "read"
      ∷ ruled "create_ticket" "tickets:write" "write"
      ∷ ruled "update_ticket_status" "tickets:write" "write"
      ∷ ruled "audit_recent" "audit:read" "read"
      ∷ [];
}

-- The operator's scopes, sorted.
abbrev pub both_scopes : List String
both_scopes = "tickets:read" ∷ "tickets:write" ∷ []

pub operator_known : Policy.client shipped "operator-agent" ≡ some operator
unfolding Policy.client shipped ◌==◌
operator_known = refl

pub operator_granted : authorize_scopes shipped "operator-agent" both_scopes ≡ granted both_scopes
unfolding authorize_scopes shipped sorted_set text_lt ◌==◌
operator_granted = refl

pub operator_reads :
    authorize_scopes shipped "operator-agent" ("tickets:read" ∷ []) ≡ granted ("tickets:read" ∷ [])
unfolding authorize_scopes shipped sorted_set text_lt ◌==◌
operator_reads = refl

pub operator_lists : require_tool shipped "list_tickets" both_scopes ≡ granted list_rule
unfolding require_tool shipped ◌==◌
operator_lists = refl

pub operator_teams : sorted_set operator.teams ≡ "alpha" ∷ "beta" ∷ []
unfolding sorted_set text_lt ◌==◌
operator_teams = refl

pub reader_lists : require_tool shipped "list_tickets" ("tickets:read" ∷ []) ≡ granted list_rule
unfolding require_tool shipped ◌==◌
reader_lists = refl
