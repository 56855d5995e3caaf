-- ===== src/Policy.antt =====
-- src/mcpgate/policy.py: who may hold which scopes, which scope a tool needs, which teams a client
-- sees. The policy is read from YAML before the program starts to serve; the model begins with its
-- two dicts.
pub mod Order
pub mod Scopes
pub mod Loading
pub mod Shipped
use mcpgate.Prelude.{String, Option, none, some, List, contains, is_subset, lookup, if◌then◌else◌}
use Order.{sorted_set}

pub record ClientPolicy : Type 0 where
  pub client_id : String
  pub secret : String
  pub scopes : List String
  pub teams : List String

pub record ToolPolicy : Type 0 where
  pub name : String
  pub scope : String
  pub action : String

pub record Policy : Type 0 where
  pub clients : List (String × ClientPolicy)
  pub tools : List (String × ToolPolicy)

-- A `PermissionError`, by the kind of its message.
pub data Denial : Type 0 where
  unknown_client scope_escalation unknown_tool missing_scope : Denial

pub data Permission {ℓ} (A : Type ℓ) : Type ℓ where
  granted : A → Permission A
  denied : Denial → Permission A

unfoldable pub client : Policy → String → Option ClientPolicy
client p client_id = lookup client_id p.clients

authorize_for : Option ClientPolicy → List String → Permission (List String)
authorize_for none requested = denied unknown_client
authorize_for (some c) requested =
    if is_subset requested c.scopes then granted (sorted_set requested) else denied scope_escalation

unfoldable pub authorize_scopes : Policy → String → List String → Permission (List String)
unfolding authorize_for client
authorize_scopes p client_id requested = authorize_for (client p client_id) requested

require_rule : Option ToolPolicy → List String → Permission ToolPolicy
require_rule none scopes = denied unknown_tool
require_rule (some rule) scopes =
    if contains scopes rule.scope then granted rule else denied missing_scope

unfoldable pub require_tool : Policy → String → List String → Permission ToolPolicy
unfolding require_rule
require_tool p tool scopes = require_rule (lookup tool p.tools) scopes
