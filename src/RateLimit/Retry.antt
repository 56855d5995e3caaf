-- ===== src/RateLimit/Retry.antt =====
-- Identities do not share a budget; and what a reading of the clock that arrives late does.
use mcpgate.Prelude.{
  ℕ, ◌+◌, ◌-◌, ◌*◌, ◌≤◌, ◌<◌, String, ◌≡◌, ◌≢◌, ==_ne, ==_refl, lookup, some, refl, ap, ◌∙◌, arith,
}
use mcpgate.Result.{Wait}
use mcpgate.RateLimit.{
  Bucket, Limiter, Buckets, current, refill, allowed, limited, take_token, allow,
}
use mcpgate.RateLimit.Bound.{lookup-allow_ne, lookup-allow_self}

-- A call of one identity changes neither the verdict nor the bucket of a later call of another.
pub allow_isolated :
    (l : Limiter) (cost t t' : ℕ) (j k : String) (m : Buckets)
    → j ≢ k
    → ((allow l k cost t' (allow l j cost t m).1).0 ≡ (allow l k cost t' m).0)
      × (lookup k (allow l j cost t m).1 ≡ lookup k m)
unfolding allow current
allow_isolated l cost t t' j k m h = (
  rw (lookup-allow_ne l cost m j k t (==_ne j k h)),
  lookup-allow_ne l cost m j k t (==_ne j k h),
)

short_limited :
    (l : Limiter) (cost now : ℕ) (b : Bucket)
    → (refill l now b).tokens < cost
    → (w : Wait) × ((take_token l cost now b).0 ≡ limited w)
      × ((take_token l cost now b).1 ≡ refill l now b)
unfolding take_token refill
short_limited l cost now b short = (
  record { deficit = cost - (refill l now b).tokens; rate = l.refill_per_second },
  ground (arith, short),
  ground (arith, short),
)

enough_allowed :
    (l : Limiter) (cost now : ℕ) (b : Bucket)
    → cost ≤ (refill l now b).tokens
    → (take_token l cost now b).0 ≡ allowed
unfolding take_token refill
enough_allowed l cost now b enough = ground (arith, enough)

current-held :
    (l : Limiter) (k : String) (now : ℕ) (m : Buckets) (b : Bucket)
    → lookup k m ≡ some b
    → current l k now m ≡ b
unfolding current
current-held l k now m b held = rw held refl

-- A refused call whose reading of the clock arrives late lets another call through: where the identity's
-- bucket was last updated after `s`, a call that read `s` is limited and stores `s`, and the identity's
-- next call at `t` is then allowed, although it is limited without the late call. This is where the
-- tokens left and the refill since the last update are less than the cost, the tokens left and the refill
-- since `s` are more, and the capacity covers the cost.
pub allow_backdated :
    (l : Limiter) (k : String) (cost s t : ℕ) (m : Buckets) (b : Bucket)
    → lookup k m ≡ some b
    → s < b.updated_at
    → b.updated_at ≤ t
    → cost ≤ l.capacity
    → b.tokens + (t - b.updated_at) * l.refill_per_second < cost
    → cost < b.tokens + (t - s) * l.refill_per_second
    → ((w : Wait) × ((allow l k cost t m).0 ≡ limited w))
      × ((w : Wait) × ((allow l k cost s m).0 ≡ limited w))
      × ((allow l k cost t (allow l k cost s m).1).0 ≡ allowed)
unfolding allow refill
allow_backdated l k cost s t m b held late past fits short enough =
    let stopped : (s - b.updated_at) * l.refill_per_second ≡ 0 = grind arith in
    let (w, e, same) = short_limited l cost t b (omega (arith, short)) in
    let (w', e', same') = short_limited l cost s b (omega (arith, short, stopped)) in
    let now_held = current-held l k t m b held in
    let then_held = current-held l k s m b held in
    let kept : lookup k (allow l k cost s m).1 ≡ some (refill l s b) =
      lookup-allow_self l cost m k k s (==_refl k)
      ∙ ap (λ (c : Bucket). some c) (ap (λ c. (take_token l cost s c).1) then_held ∙ same') in
    (
      (w, ap (λ c. (take_token l cost t c).0) now_held ∙ e),
      (w', ap (λ c. (take_token l cost s c).0) then_held ∙ e'),
      ap (λ c. (take_token l cost t c).0)
            (current-held l k t (allow l k cost s m).1 (refill l s b) kept)
          ∙ enough_allowed l cost t (refill l s b) (omega (arith, fits, enough, stopped, short)),
    )
