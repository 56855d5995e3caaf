-- ===== src/Runtime/Started.antt =====
-- What a runtime that was created is.
use mcpgate.Prelude.{ℕ, ◌≡◌, refl, sym, Option, none, some, []}
use mcpgate.Crypto.{Crypto}
use mcpgate.Policy.{Policy}
use mcpgate.RateLimit.{Limiter, new_limiter}
use mcpgate.Store.{Db}
use mcpgate.Store.Tickets.{seed}
use mcpgate.Auth.Types.{Settings}
use mcpgate.Gateway.Pipeline.{Gateway, State}
use mcpgate.Runtime.{with_limiter, create_runtime}

pair-injective : {x y : Gateway × State} → some x ≡ some y → x ≡ y
pair-injective h = cc

module _ (c : Crypto) (p : Policy) (settings : Settings) (now : ℕ) (db : Db) where
  abbrev pub gateway_with : Limiter → Gateway
  gateway_with limiter = record {
    policy = p;
    provider = record { crypto = c; policy = p; settings = settings };
    limiter = limiter;
    audit_key = settings.jwt_secret;
  }

  abbrev pub first_state : State
  first_state = record { db = seed now db; buckets = [] }

  with_limiter-some :
      (o : Option Limiter) (x : Gateway × State)
      → with_limiter c p settings now db o ≡ some x
      → (limiter : Limiter) × (x ≡ (gateway_with limiter, first_state))
  unfolding with_limiter
  with_limiter-some none x h = cc
  with_limiter-some (some limiter) x h = (limiter, sym (pair-injective h))

  pub create_runtime-some :
      (rate_capacity rate_refill : ℕ) (x : Gateway × State)
      → create_runtime c p settings rate_capacity rate_refill now db ≡ some x
      → (limiter : Limiter) × (x ≡ (gateway_with limiter, first_state))
  unfolding create_runtime
  create_runtime-some rate_capacity rate_refill x h =
      with_limiter-some (new_limiter rate_capacity rate_refill) x h

-- Whether a runtime can be created hangs on the rates alone, not on the database.
pub create_runtime-again :
    (c : Crypto) (p : Policy) (settings : Settings) (now later : ℕ) (db db' : Db)
    (rate_capacity rate_refill : ℕ) (x : Gateway × State)
    → create_runtime c p settings rate_capacity rate_refill now db ≡ some x
    → (limiter : Limiter) × (x
        ≡ (gateway_with c p settings now db limiter, first_state c p settings now db))
      × (create_runtime c p settings rate_capacity rate_refill later db'
          ≡ some (gateway_with c p settings later db' limiter, first_state c p settings later db'))
unfolding create_runtime
create_runtime-again c p settings now later db db' rate_capacity rate_refill x h =
    go (new_limiter rate_capacity rate_refill) h
  where
    go :
        (o : Option Limiter)
        → with_limiter c p settings now db o ≡ some x
        → (limiter : Limiter) × (x
            ≡ (gateway_with c p settings now db limiter, first_state c p settings now db))
          × (with_limiter c p settings later db' o
              ≡ some
                  (gateway_with c p settings later db' limiter, first_state c p settings later db'))
    go none e = cc
    go (some limiter) e = (limiter, sym (pair-injective e), refl)
