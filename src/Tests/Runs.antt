-- ===== src/Tests/Runs.antt =====
-- A new runtime and two calls.
use mcpgate.Prelude.{◌≡◌, refl, true, some, List, [], ◌∷◌, arith}
use mcpgate.RateLimit.{new_limiter}
use mcpgate.Store.{new_db}
use mcpgate.Store.Tickets.{seed}
use mcpgate.Store.Tickets.Rows.{IsKeyed}
use mcpgate.Audit.{verify_chain}
use mcpgate.Gateway.Pipeline.{Invocation, Gateway, State, Readings}
use mcpgate.Gateway.Pipeline.Audited.{serve}
use mcpgate.Runtime.{create_runtime}
use mcpgate.Runtime.Runs.{create_runtime_runs}
use mcpgate.Tests.World.{crypto, policy, provider, limiter, readings, reading}

abbrev new_gateway : Gateway
new_gateway = record { policy = policy; provider = provider; limiter = limiter; audit_key = "k" }

abbrev new_state : State
new_state = record { db = seed 5 new_db; buckets = [] }

abbrev two_reads : List (Invocation × Readings)
two_reads = (reading 1, readings) ∷ (reading 2, readings) ∷ []

runtime_built :
    create_runtime crypto policy provider.settings 2 1_000_000 5 new_db
    ≡ some (new_gateway, new_state)
unfolding create_runtime new_limiter
runtime_built = refl

create_runtime_runs_example :
    IsKeyed (serve new_gateway two_reads new_state).db
    × (verify_chain crypto "k" (serve new_gateway two_reads new_state).db ≡ true)
create_runtime_runs_example =
    create_runtime_runs crypto policy provider.settings 5 new_gateway new_state 2 1_000_000
      two_reads runtime_built (omega arith)
