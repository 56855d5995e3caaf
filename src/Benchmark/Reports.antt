-- ===== src/Benchmark/Reports.antt =====
-- What `run_benchmark` reports.
use mcpgate.Prelude.{
  ℕ, ◌+◌, ◌-◌, ◌*◌, pos, negsuc, leb, Bool-cases, inl, inr, ◌≤◌, ◌<◌, ◌≡◌, ◌≢◌, refl, true, Option,
  some, List, [], ◌∷◌, ℤ, map, length, ltb, arith,
}
use mcpgate.Crypto.{Crypto}
use mcpgate.Policy.Shipped.{shipped, operator}
use mcpgate.Auth.Types.{Settings}
use mcpgate.Auth.Issue.{Draw}
use mcpgate.Auth.Access.Accepted.{issued_claims}
use mcpgate.Benchmark.{
  Lap, Times, Report, percentile, difference, report_of, reported, run_benchmark,
}
use mcpgate.Benchmark.Percentile.{below, up_to, place, percentile_lem}
use mcpgate.Benchmark.Median.{IsMedian, twice_median-IsMedian}
use mcpgate.Benchmark.Finishes.{
  durations, AllInTime, bench_provider, bench_token, bench_iat, bench_expiry, run_timings-durations,
}

-- No more values than its place are smaller than a percentile, and more than its place are not larger.
pub record IsPercentile (rank : ℤ → ℤ) (v : ℕ) (values : List ℕ) : Type 0 where
  pub few_below : below v values ≤ place rank (length values)
  pub many_up_to : place rank (length values) < up_to v values

-- `a - b` is `gap`.
abbrev pub IsGap : ℕ → ℕ → ℤ → Type 0
IsGap a b (pos n) = a ≡ b + n
IsGap a b (negsuc n) = b ≡ a + (n + 1)

difference-IsGap : (a b : ℕ) → IsGap a b (difference a b)
unfolding difference
difference-IsGap a b = elim (Bool-cases (leb b a)) [
  | inl h ↦ rw h (ground (arith, h))
  | inr h ↦ rw h (ground (arith, h))
]

length-map : (f : Lap → ℕ) (laps : List Lap) → length (map f laps) ≡ length laps
length-map f [] = refl
length-map f (lap ∷ laps) = omega (arith, length-map f laps)

percentile-IsPercentile :
    (rank : ℤ → ℤ) (values : List ℕ)
    → 1 ≤ length values
    → (v : ℕ) × (percentile rank values ≡ some v) × IsPercentile rank v values
percentile-IsPercentile rank values many =
    let (v, e, b, u) = percentile_lem rank values many in
    (v, e, record { few_below = b; many_up_to = u })

module _ (rank round4 : ℤ → ℤ) (n : ℕ) (times : Times) where
  -- The medians and the percentiles of the two samples, the governed sample's less the direct one's, and
  -- the report of them, each rounded; medians and percentiles are doubled.
  abbrev pub Reports : Option Report → Type 0
  Reports result =
      (direct_median direct_p95 governed_median governed_p95 : ℕ) × (median_gap p95_gap : ℤ)
      × IsMedian direct_median times.direct_ms
      × IsPercentile rank direct_p95 times.direct_ms
      × IsMedian governed_median times.governed_ms
      × IsPercentile rank governed_p95 times.governed_ms
      × IsGap governed_median direct_median median_gap
      × IsGap (2 * governed_p95) (2 * direct_p95) p95_gap
      × (result
          ≡ some (record {
            iterations = n;
            direct_median_ms = round4 (pos direct_median);
            direct_p95_ms = round4 (pos (2 * direct_p95));
            governed_median_ms = round4 (pos governed_median);
            governed_p95_ms = round4 (pos (2 * governed_p95));
            median_overhead_ms = round4 median_gap;
            p95_overhead_ms = round4 p95_gap;
          }))

  reported-Reports :
      1 ≤ length times.direct_ms
      → 1 ≤ length times.governed_ms
      → Reports (reported rank round4 n (some times))
  unfolding reported report_of
  reported-Reports many many' =
      let (a, e, a_middle) = twice_median-IsMedian times.direct_ms many in
      let (b, f, b_place) = percentile-IsPercentile rank times.direct_ms many in
      let (c, g, c_middle) = twice_median-IsMedian times.governed_ms many' in
      let (d, h, d_place) = percentile-IsPercentile rank times.governed_ms many' in
      (
        a,
        b,
        c,
        d,
        difference c a,
        difference (2 * d) (2 * b),
        a_middle,
        b_place,
        c_middle,
        d_place,
        difference-IsGap c a,
        difference-IsGap (2 * d) (2 * b),
        rw (e, f, g, h) refl,
      )

-- The benchmark finishes with a report: with the shipped policy and at least one lap no call is refused,
-- and the report gives, rounded, the medians and the percentiles of the durations of all laps and their
-- differences; a median stands in the middle of its sample and a percentile at its rounded rank, cut to
-- the sample. This is if the laps are over before the access token expires, none before its `iat`, the
-- JWT library decodes it in this time to the claims it encodes, and the two new tokens have different digests.
pub run_benchmark-Reports :
    (rank round4 : ℤ → ℤ) (c : Crypto) (settings : Settings) (now : ℕ) (d : Draw) (laps : List Lap)
    → 1 ≤ length laps
    → AllInTime (bench_iat c settings d) (bench_expiry c settings d) laps
    → ((n : ℕ)
        → bench_iat c settings d ≤ n
        → ltb n (bench_expiry c settings d) ≡ true
        → c.jwt_decode
            (bench_token c settings d)
            settings.jwt_secret
            settings.resource_url
            settings.issuer_url
            n
          ≡ some (
              issued_claims
                (bench_provider c settings d)
                "operator-agent"
                ("tickets:read" ∷ [])
                d
                operator))
    → c.sha256 d.refresh ≢ c.sha256 (bench_token c settings d)
    → Reports rank round4
        (length laps)
        (durations laps)
        (run_benchmark rank round4 c shipped settings now d laps)
unfolding run_benchmark
run_benchmark-Reports rank round4 c settings now d laps many in_time decodes apart =
    rw (run_timings-durations c settings d decodes apart now laps in_time) (
      reported-Reports rank round4 (length laps) (durations laps)
        (omega (arith, many, length-map (λ lap. lap.direct_ended - lap.direct_started) laps))
        (omega (arith, many, length-map (λ lap. lap.governed_ended - lap.governed_started) laps)))
