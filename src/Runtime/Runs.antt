-- ===== src/Runtime/Runs.antt =====
-- What holds of every state that a new runtime reaches.
use mcpgate.Prelude.{
  ℕ, ◌≤◌, ◌≡◌, refl, sym, ap, subst, String, true, Option, none, some, List, [], ◌∷◌, length, arith,
}
use mcpgate.Crypto.{Crypto}
use mcpgate.Policy.{Policy}
use mcpgate.RateLimit.{Limiter, new_limiter}
use mcpgate.Store.{Db, new_db}
use mcpgate.Store.Tickets.{seed}
use mcpgate.Store.Tickets.Rows.{IsKeyed, seed-IsKeyed}
use mcpgate.Store.Events.{audit_events}
use mcpgate.Audit.{chain_limit, verify_from, verify_chain}
use mcpgate.Auth.Types.{Settings}
use mcpgate.Gateway.Pipeline.{Invocation, Gateway, State, Readings, invoke}
use mcpgate.Gateway.Pipeline.Audited.{serve, serve_verifies}
use mcpgate.Gateway.Pipeline.Mediation.{invoke-IsKeyed}
use mcpgate.Runtime.{with_limiter, create_runtime}

-- Calls keep the keys of the tickets' table in order.
pub serve-IsKeyed :
    (g : Gateway) (calls : List (Invocation × Readings)) (s : State)
    → IsKeyed s.db
    → IsKeyed (serve g calls s).db
unfolding serve
serve-IsKeyed g [] s h = h
serve-IsKeyed g ((i, r) ∷ calls) s h =
    serve-IsKeyed g calls (invoke g i r s).1 (invoke-IsKeyed g i r s h)

seeded-IsKeyed : (now : ℕ) → IsKeyed (seed now new_db)
seeded-IsKeyed now =
    seed-IsKeyed now new_db (record { ascending = omega arith; bounded = omega arith })
      (omega arith)

same_built : {x y : Gateway × State} → some x ≡ some y → x ≡ y
same_built h = cc

module _ (c : Crypto) (p : Policy) (settings : Settings) (now : ℕ) (g : Gateway) (s : State) where
  pub built :
      (o : Option Limiter)
      → with_limiter c p settings now new_db o ≡ some (g, s)
      → (s.db ≡ seed now new_db) × (g.audit_key ≡ settings.jwt_secret) × (g.provider.crypto ≡ c)
  unfolding with_limiter
  built none h = cc
  built (some limiter) h =
      let e = same_built h in
      (
        sym (ap (λ (x : Gateway × State). x.1.db) e),
        sym (ap (λ (x : Gateway × State). x.0.audit_key) e),
        sym (ap (λ (x : Gateway × State). x.0.provider.crypto) e),
      )

  fresh_verifies : (key : String) → verify_chain c key (seed now new_db) ≡ true
  unfolding verify_chain verify_from audit_events seed
  fresh_verifies key = refl

  fresh_log : length (seed now new_db).events ≡ 0
  unfolding seed
  fresh_log = refl

  -- In every state that a new runtime on a new database reaches by at most a million calls, of any
  -- callers and with any outcomes, the keys of the tickets are in order and the audit log verifies under
  -- the JWT secret.
  pub create_runtime_runs :
      (rate_capacity rate_refill : ℕ) (calls : List (Invocation × Readings))
      → create_runtime c p settings rate_capacity rate_refill now new_db ≡ some (g, s)
      → length calls ≤ chain_limit
      → IsKeyed (serve g calls s).db
        × (verify_chain c settings.jwt_secret (serve g calls s).db ≡ true)
  unfolding create_runtime
  create_runtime_runs rate_capacity rate_refill calls h few =
      let (store, key, crypto) = built (new_limiter rate_capacity rate_refill) h in
      (
        serve-IsKeyed g calls s (subst IsKeyed (sym store) (seeded-IsKeyed now)),
        subst (λ k. verify_chain c k (serve g calls s).db ≡ true) key
            (subst (λ d. verify_chain d g.audit_key (serve g calls s).db ≡ true) crypto
              (serve_verifies g calls s
                (omega (arith, ap (λ (d : Db). length d.events) store, fresh_log))
                (rw (store, crypto) (fresh_verifies g.audit_key)))),
      )
