-- ===== src/Tests/Cli.antt =====
-- The commands with toy cryptography.
use mcpgate.Prelude.{
  map, ℕ, ◌≡◌, refl, true, false, some, List, [], ◌∷◌, String, ◌==◌, ne_of_test, arith,
}
use mcpgate.Policy.{client, authorize_scopes}
use mcpgate.Policy.Order.{sorted_set}
use mcpgate.RateLimit.{Limiter, new_limiter}
use mcpgate.Store.{Db, new_db}
use mcpgate.Store.Tickets.{seed}
use mcpgate.Auth.Types.{ok}
use mcpgate.Auth.Issue.{compare_digest, OauthToken, issue_for_client, issue_pair, issue_to}
use mcpgate.Auth.Access.{load_access_token}
use mcpgate.Gateway.Validate.{is_space}
use mcpgate.Gateway.Pipeline.{Gateway, State}
use mcpgate.Runtime.{create_runtime}
use mcpgate.Runtime.Started.{gateway_with, first_state}
use mcpgate.Policy.Scopes.{IsWithin}
use mcpgate.Auth.Types.{or_scopes}
use mcpgate.Cli.{Printed, Process, start, issue_token, audit, wanted}
use mcpgate.Auth.Words.{split, join, split-join}
use mcpgate.Cli.Issued.{printed_access, provider_in, issue_token-accepted}
use mcpgate.Cli.Audited.{audit-work}
use mcpgate.Server.Calls.Worked.{Turn, work, heard, seen}
use mcpgate.Tests.Server.{caller, request, sdk, sdk-IsRewrapping}
use mcpgate.Tests.World.{
  claims, while_live, live-while_live, crypto, policy, provider, ann, draw, readings,
}

abbrev two_scopes : List String
two_scopes = "tickets:read" ∷ "tickets:write" ∷ []

split-join_example : split (join two_scopes) ≡ two_scopes
unfolding ◌==◌ is_space
split-join_example = split-join two_scopes ((refl, refl), ((refl, refl), tt))

-- White space of any kind and length parts the scopes.
split_runs : split " tickets:read\t\n tickets:write " ≡ two_scopes
unfolding split is_space ◌==◌
split_runs = refl

abbrev process : ℕ → Process
process now = record {
  crypto = record crypto { jwt_decode = λ token secret aud iss n. while_live claims n };
  policy = policy;
  settings = provider.settings;
  rate_capacity = 20;
  rate_refill = 5_000_000;
  now = now;
}

-- What `issue-token` prints for Ann.
abbrev printed_pair : OauthToken
printed_pair = record {
  access_token = "jwt";
  expires_in = 900;
  scope = "tickets:read" ∷ [];
  refresh_token = "new";
}

abbrev db_after : Db
db_after =
    (issue_pair (provider_in (process 5)) "ann" ("tickets:read" ∷ []) "url" draw (seed 5 new_db)).1

issue_token_runs :
    issue_token (process 5) "ann" "s1" " tickets:read\n" draw new_db ≡ some (printed_pair, db_after)
unfolding issue_token create_runtime new_limiter issue_for_client compare_digest issue_pair issue_to
    authorize_scopes client sorted_set split is_space seed ◌==◌
issue_token_runs = refl

abbrev limits : Limiter
limits = record { capacity = 20_000_000_000_000; refill_per_second = 5_000_000 }

abbrev gateway : ℕ → Gateway
gateway now = gateway_with (process now).crypto policy provider.settings now new_db limits

abbrev state : ℕ → Db → State
state now db = first_state (process now).crypto policy provider.settings now db

started : (now : ℕ) (db : Db) → start (process now) db ≡ some (gateway now, state now db)
unfolding create_runtime new_limiter
started now db = refl

ann_known : client policy "ann" ≡ some ann
unfolding client ◌==◌
ann_known = refl

new_not_jwt : ("new" == "jwt") ≡ false
unfolding ◌==◌
new_not_jwt = refl

issue_token-accepted_example :
    (load_access_token (provider_in (process 7)) "jwt" 2_000_008 2_000_009 (seed 7 db_after)
      ≡ ok (some (printed_access (process 5) "ann" draw ann printed_pair)))
    × (ann.secret ≡ "s1")
    × IsWithin ("tickets:read" ∷ []) ("tickets:read" ∷ [])
    × IsWithin
        ("tickets:read" ∷ [])
        (or_scopes (wanted " tickets:read\n") (sorted_set ("tickets:read" ∷ [])))
unfolding ◌==◌ sorted_set
issue_token-accepted_example =
    issue_token-accepted (process 5) "ann" "s1" " tickets:read\n" draw new_db printed_pair db_after
      ann ann_known (λ n begun early. live-while_live claims n begun early)
      (ne_of_test "new" "jwt" new_not_jwt) 7 2_000_008 2_000_009 (gateway 7) (state 7 db_after)
      issue_token_runs (started 7 db_after) (omega arith) refl refl

abbrev turn : String → Turn
turn name = record { request = request name (some caller); readings = readings; rejected_at = 9 }

-- A tool that there is, and one that there is not.
abbrev turns : List Turn
turns = turn "list_tickets" ∷ turn "drop_table" ∷ []

session_named : ("mcp-1" == "") ≡ false
unfolding ◌==◌
session_named = refl

audit-work_example :
    (printed : Printed) × (audit
        (process 9)
        "mcp-1"
        true
        (work sdk (gateway 5) turns (state 5 new_db)).db
      ≡ some printed)
    × (map seen printed.steps ≡ heard sdk (gateway 5) "mcp-1" turns (state 5 new_db))
    × (printed.chain_valid ≡ some true)
audit-work_example =
    audit-work (process 5) 9 "mcp-1" true sdk turns new_db (gateway 5) (state 5 new_db)
      sdk-IsRewrapping (started 5 new_db) refl session_named ((caller, refl), ((caller, refl), tt))
      (omega arith)
