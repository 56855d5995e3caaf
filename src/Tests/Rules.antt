-- ===== src/Tests/Rules.antt =====
-- The policy's, the limiter's and the benchmark's theorems at the small deployment.
use mcpgate.Prelude.{
  ℕ, ℤ, pos, String, List, All, ◌*◌, ◌+◌, ◌-◌, ◌≤◌, ◌<◌, ◌≡◌, refl, true, some, [], ◌∷◌, ◌==◌,
  arith,
}
use mcpgate.Result.{Wait}
use mcpgate.Policy.{client, authorize_scopes}
use mcpgate.Policy.Scopes.{Authorized, authorize_scopes-Authorized}
use mcpgate.RateLimit.{Bucket, Buckets, new_limiter, one_token, allowed, limited, allow}
use mcpgate.RateLimit.Bound.{Calls, admissions, admissions-le-budget}
use mcpgate.RateLimit.Retry.{allow_backdated}
use mcpgate.RateLimit.Burst.{verdicts, burst_allowed}
use mcpgate.Value.{Value}
use mcpgate.Policy.Loading.{loaded, version_one, load_policy}
use mcpgate.Policy.Loading.Filed.{IsFiled, load_policy-IsFiled}
use mcpgate.Policy.Loading.RoundTrip.{document, load_policy-document}
use mcpgate.Benchmark.{percentile}
use mcpgate.Benchmark.Percentile.{below, up_to, place, percentile_lem}
use mcpgate.Tests.World.{policy, limiter}

authorize_scopes-Authorized_example :
    Authorized policy
      ("tickets:write" ∷ [])
      (client policy "ann")
      (authorize_scopes policy "ann" ("tickets:write" ∷ []))
authorize_scopes-Authorized_example =
    authorize_scopes-Authorized policy "ann" ("tickets:write" ∷ [])

-- Three calls of Ann in one second, one of Bob.
abbrev calls : Calls
calls = ("ann", 0) ∷ ("ann", 10) ∷ ("bob", 20) ∷ ("ann", 1_000_000) ∷ []

budget_example :
    admissions limiter one_token "ann" calls [] * one_token
    ≤ limiter.capacity + (1_000_000 - 0) * limiter.refill_per_second
budget_example =
    admissions-le-budget limiter one_token "ann" 0 1_000_000 calls []
      (omega arith, (omega arith, (omega arith, (omega arith, omega arith))))

abbrev spent : Bucket
spent = record { tokens = 0; updated_at = 5 }

abbrev wait : Wait
wait = record { deficit = 1_000_000_000_000; rate = 1_000_000 }

abbrev spent_late : Buckets
spent_late = ("ann", record { tokens = 0; updated_at = 500_000 }) ∷ []

allow_backdated_example :
    ((w : Wait) × ((allow limiter "ann" one_token 1_200_000 spent_late).0 ≡ limited w))
    × ((w : Wait) × ((allow limiter "ann" one_token 0 spent_late).0 ≡ limited w))
    × ((allow limiter "ann" one_token 1_200_000 (allow limiter "ann" one_token 0 spent_late).1).0
        ≡ allowed)
unfolding ◌==◌
allow_backdated_example =
    allow_backdated limiter "ann" one_token 0 1_200_000 spent_late
      (record { tokens = 0; updated_at = 500_000 }) refl (omega arith) (omega arith) (omega arith)
      (omega arith) (omega arith)

-- Bob calls while Ann waits.
abbrev spent_buckets : Buckets
spent_buckets = ("ann", spent) ∷ []

abbrev bobs : Calls
bobs = ("bob", 6) ∷ ("bob", 7) ∷ []

limiter_built : new_limiter 2 1_000_000 ≡ some limiter
unfolding new_limiter
limiter_built = refl

burst_example : All (λ v. v ≡ allowed) (verdicts limiter one_token bobs [])
burst_example = burst_allowed limiter 2 1_000_000 bobs limiter_built (omega arith)

policy-IsFiled : IsFiled policy
policy-IsFiled = record { clients = (refl, (refl, tt)); tools = (refl, (refl, tt)) }

abbrev any_text : Value → String
any_text v = "?"

policy_back : load_policy any_text (document policy) ≡ loaded policy
policy_back = load_policy-document any_text policy policy-IsFiled

document_example : load_policy any_text (document policy) ≡ loaded policy
document_example = load_policy-document any_text policy policy-IsFiled

version_example : IsFiled policy × (version_one (document policy) ≡ loaded true)
version_example = load_policy-IsFiled any_text (document policy) policy policy_back

-- The middle one of three.
abbrev middle : ℤ → ℤ
middle n = pos 1

abbrev values : List ℕ
values = 3 ∷ 1 ∷ 2 ∷ []

percentile_example :
    (v : ℕ) × (percentile middle values ≡ some v)
    × (below v values ≤ place middle 3)
    × (place middle 3 < up_to v values)
percentile_example = percentile_lem middle values (omega arith)
