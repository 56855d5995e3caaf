-- ===== src/RateLimit.antt =====
-- src/mcpgate/rate_limit.py: the token bucket of each identity.
-- Floats are exact fixed-point numbers here: a time is in microseconds, the refill rate in millionths
-- of a token for each second, so levels, the capacity and costs are in units of 10 ^ -12 token and
-- `elapsed * refill_per_second` is a product of whole numbers. The clock's reading is an argument.
-- The lock makes each call of `allow` one step; the reading is taken before the lock.
pub mod Retry
pub mod Bound
pub mod Burst
use mcpgate.Prelude.{
  ℕ, ◌+◌, ◌-◌, ◌*◌, String, Option, none, some, List, [], ◌∷◌, min, ltb, ◌==◌, ◌||◌, lookup,
  if◌then◌else◌, nat_eq,
}
use mcpgate.Result.{Wait}

pub record Bucket : Type 0 where
  pub tokens : ℕ
  pub updated_at : ℕ

pub record Limiter : Type 0 where
  pub capacity : ℕ
  pub refill_per_second : ℕ

-- One token, and with it the default cost of a call.
abbrev pub one_token : ℕ
one_token = 1_000_000_000_000

-- The checks of `__init__`: `none` is its ValueError. `capacity` counts whole tokens.
unfoldable pub new_limiter : ℕ → ℕ → Option Limiter
new_limiter capacity refill =
    if nat_eq capacity 0 || nat_eq refill 0
    then none
    else some (record { capacity = capacity * one_token; refill_per_second = refill })

abbrev pub Buckets : Type 0
Buckets = List (String × Bucket)

-- `_buckets[identity] = bucket`
pub put_bucket : String → Bucket → Buckets → Buckets
put_bucket k b [] = (k, b) ∷ []
put_bucket k b ((j, c) ∷ m) = if k == j then (k, b) ∷ m else (j, c) ∷ put_bucket k b m

-- `_buckets.setdefault(identity, Bucket(self.capacity, now))`
default_bucket : Limiter → ℕ → Option Bucket → Bucket
default_bucket l now none = record { tokens = l.capacity; updated_at = now }
default_bucket l now (some b) = b

pub current : Limiter → String → ℕ → Buckets → Bucket
unfolding default_bucket
current l identity now m = default_bucket l now (lookup identity m)

-- `elapsed = max(0.0, now - updated_at)`; `-` on ℕ stops at 0.
unfoldable pub refill : Limiter → ℕ → Bucket → Bucket
refill l now b = record {
  tokens = min l.capacity (b.tokens + (now - b.updated_at) * l.refill_per_second);
  updated_at = now;
}

-- `(True, 0.0)`, or `(False, retry_after)`.
pub data Verdict : Type 0 where
  allowed : Verdict
  limited : Wait → Verdict

spend : Limiter → ℕ → Bucket → Verdict × Bucket
spend l cost b =
    if ltb b.tokens cost
    then (limited (record { deficit = cost - b.tokens; rate = l.refill_per_second }), b)
    else (allowed, record b { tokens = b.tokens - cost })

-- The body of `allow` on the identity's bucket.
unfoldable pub take_token : Limiter → ℕ → ℕ → Bucket → Verdict × Bucket
unfolding refill spend
take_token l cost now b = spend l cost (refill l now b)

unfoldable pub allow : Limiter → String → ℕ → ℕ → Buckets → Verdict × Buckets
unfolding current take_token put_bucket
allow l identity cost now m =
    let (verdict, b) = take_token l cost now (current l identity now m) in
    (verdict, put_bucket identity b m)
