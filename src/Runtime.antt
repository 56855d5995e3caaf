-- ===== src/Runtime.antt =====
-- src/mcpgate/runtime.py: what `create_runtime` builds. The policy is the one that policy.yaml says;
-- `db` is the database that the store opens.
pub mod Runs
pub mod Started
use mcpgate.Prelude.{ℕ, Option, none, some, []}
use mcpgate.Crypto.{Crypto}
use mcpgate.Policy.{Policy}
use mcpgate.RateLimit.{Limiter, new_limiter}
use mcpgate.Store.{Db}
use mcpgate.Store.Tickets.{seed}
use mcpgate.Auth.Types.{Settings}
use mcpgate.Gateway.Pipeline.{Gateway, State}

-- The audit log's key is the JWT secret. Without a limiter there is no runtime: its ValueError.
pub with_limiter : Crypto → Policy → Settings → ℕ → Db → Option Limiter → Option (Gateway × State)
with_limiter c p settings now db none = none
with_limiter c p settings now db (some limiter) = some (
  record {
    policy = p;
    provider = record { crypto = c; policy = p; settings = settings };
    limiter = limiter;
    audit_key = settings.jwt_secret;
  },
  record { db = seed now db; buckets = [] },
)

-- `now` is the time that `seed` reads.
unfoldable pub create_runtime :
    Crypto → Policy → Settings → ℕ → ℕ → ℕ → Db → Option (Gateway × State)
unfolding with_limiter
create_runtime c p settings rate_capacity rate_refill now db =
    with_limiter c p settings now db (new_limiter rate_capacity rate_refill)
