-- ===== src/Benchmark/Finishes.antt =====
-- `run_benchmark` finishes: its own calls are never refused, by the rate limiter or by another guard.
use mcpgate.Prelude.{
  ℕ, ◌+◌, ◌-◌, ◌*◌, ◌/◌, ◌≤◌, String, ◌≡◌, ◌≢◌, refl, sym, ap, subst, ◌∙◌, true, Option, some, List,
  [], ◌∷◌, map, length, All, ltb, ◌==◌, arith,
}
use mcpgate.Result.{ok}
use mcpgate.Crypto.{Crypto}
use mcpgate.Policy
use mcpgate.Policy.{granted}
use mcpgate.Policy.Shipped.{
  shipped, operator, list_rule, operator_known, operator_reads, reader_lists,
}
use mcpgate.Policy.Order.{sorted_set}
use mcpgate.RateLimit.{Limiter, one_token}
use mcpgate.RateLimit.Burst.{HoldAtLeast, allow_holds, new_limiter-some}
use mcpgate.Store.{Db, new_db}
use mcpgate.Store.Tickets.{seed}
use mcpgate.Auth.Types.{Settings, AuthResult, second, Provider}
use mcpgate.Auth.Issue.{Draw, OauthToken, compare_digest, issue_pair}
use mcpgate.Auth.Issue.Grants.{issue_for_client-granted}
use mcpgate.Auth.Access.{AccessToken, load_access_token}
use mcpgate.Auth.Access.Accepted.{
  issued_claims, issued_token, issue_pair-known, load-issue_pair, load_access_token-same,
}
use mcpgate.Gateway.Clean.{nothing}
use mcpgate.Gateway.Dispatch.{Reply, dispatch, direct}
use mcpgate.Gateway.Pipeline.{Gateway, State, Outcome, returned, invoke}
use mcpgate.Gateway.Pipeline.Listing.{invoke_lists, invoke-buckets, invoke-artifacts}
use mcpgate.Runtime.{create_runtime}
use mcpgate.Benchmark.{
  Lap, Times, governed_call, add_lap, unless_failed, run_laps, laps_with, issued_laps, run_timings,
}

-- The durations that the clock's readings give.
abbrev pub durations : List Lap → Times
durations laps = record {
  direct_ms = map (λ lap. lap.direct_ended - lap.direct_started) laps;
  governed_ms = map (λ lap. lap.governed_ended - lap.governed_started) laps;
}

-- In every lap the token is used from `issued` on, before `expiry`.
abbrev pub AllInTime : ℕ → ℕ → List Lap → Type 0
AllInTime issued expiry laps =
    All
      (λ lap.
        (issued ≤ lap.readings.decode_now)
        × (ltb lap.readings.decode_now expiry ≡ true)
        × (ltb lap.readings.artifact_now expiry ≡ true))
      laps

-- The bare call is answered and changes nothing.
direct_lists :
    (now : ℕ) (db : Db)
    → (reply : Reply) × (direct "list_tickets"
          (("status", nothing) ∷ [])
          ("alpha" ∷ "beta" ∷ [])
          "bench"
          now
          db
        ≡ (ok reply, db))
unfolding direct dispatch ◌==◌
direct_lists now db = (_, refl)

lap_counted :
    (lap : Lap) (x y : Reply) (laps : List Lap) (o : Outcome) (rest : Option Times)
    → o ≡ returned y
    → rest ≡ some (durations laps)
    → unless_failed (ok x) o (add_lap lap rest) ≡ some (durations (lap ∷ laps))
unfolding unless_failed add_lap
lap_counted lap x y laps o rest a b = rw (a, b) refl

module _ (g : Gateway) (token : String) (access : AccessToken) (issued expiry : ℕ)
    (may : Policy.require_tool g.policy "list_tickets" access.scopes ≡ granted list_rule) where
  -- The token is accepted on these artifacts from its `iat` on until it expires.
  abbrev pub IsLive : Db → Type 0
  IsLive db =
      (n m : ℕ)
      → issued ≤ n
      → ltb n expiry ≡ true
      → ltb m expiry ≡ true
      → load_access_token g.provider token n m db ≡ AuthResult.ok (some access)

  pub run_laps-durations :
      (laps : List Lap) (s : State)
      → AllInTime issued expiry laps
      → IsLive s.db
      → length laps * one_token ≤ g.limiter.capacity
      → HoldAtLeast (length laps * one_token) s.buckets
      → run_laps g token laps s ≡ some (durations laps)
  unfolding run_laps
  run_laps-durations [] s in_time live fits held = refl
  run_laps-durations (lap ∷ laps) s in_time live fits held =
      let n = length laps * one_token in
      let i = governed_call token in
      let more : n + one_token ≡ length (lap ∷ laps) * one_token = grind arith in
      let (x, bare) = direct_lists lap.write_now s.db in
      let here =
        live lap.readings.decode_now lap.readings.artifact_now in_time.0.0 in_time.0.1
          in_time.0.2 in
      let (free, left) =
        allow_holds g.limiter one_token n s.buckets access.client_id lap.readings.bucket_now
          (omega (arith, more, fits)) (λ k b e. omega (arith, more, held k b e)) in
      let s' = (invoke g i lap.readings s).1 in
      let still : IsLive s'.db = λ a b begun early early'.
        load_access_token-same g.provider token a b s'.db s.db (invoke-artifacts g i lap.readings s)
        ∙ live a b begun early early' in
      rw bare (
        lap_counted lap x _ laps _ _
          (invoke_lists g lap.readings s access token (some "benchmark") list_rule here free may)
          (run_laps-durations laps s' in_time.1 still (omega (arith, more, fits))
            (subst (HoldAtLeast n) (sym (invoke-buckets g lap.readings s access i here)) left)))

laps_with-issued :
    (g : Gateway) (s : State) (laps : List Lap) (issued : AuthResult OauthToken × Db)
    (pair : OauthToken)
    → issued.0 ≡ AuthResult.ok pair
    → laps_with g s laps issued ≡ run_laps g pair.access_token laps (record s { db = issued.1 })
unfolding laps_with
laps_with-issued g s laps (o, db) pair h = ap (λ x. laps_with g s laps (x, db)) h

operator_compared : compare_digest operator.secret "operator-local-secret" ≡ some true
unfolding compare_digest ◌==◌
operator_compared = refl

abbrev bench_limiter : ℕ → Limiter
bench_limiter n = record {
  capacity = (n + 10) * one_token;
  refill_per_second = (n + 10) * 1_000_000;
}

module _ (c : Crypto) (settings : Settings) (d : Draw) where
  abbrev pub bench_provider : Provider
  bench_provider = record { crypto = c; policy = shipped; settings = settings }

  -- The access token of the benchmark, and until when it is good.
  abbrev pub bench_token : String
  bench_token = issued_token bench_provider "operator-agent" ("tickets:read" ∷ []) d operator

  abbrev pub bench_expiry : ℕ
  bench_expiry = (d.now / second + settings.access_token_ttl) * second

  -- Its `iat`, before which PyJWT refuses it.
  abbrev pub bench_iat : ℕ
  bench_iat = d.now / second * second

  abbrev bench_gateway : Limiter → Gateway
  bench_gateway limiter = record {
    policy = shipped;
    provider = bench_provider;
    limiter = limiter;
    audit_key = settings.jwt_secret;
  }

  abbrev bench_access : AccessToken
  bench_access = record {
    token = bench_token;
    client_id = "operator-agent";
    scopes = "tickets:read" ∷ [];
    expires_at = d.now / second + settings.access_token_ttl;
    resource = settings.resource_url;
    subject = "operator-agent";
    claims = record { teams = some (sorted_set operator.teams); jti = some d.jti };
  }

  module _
      (decodes : (n : ℕ)
        → bench_iat ≤ n
        → ltb n bench_expiry ≡ true
        → c.jwt_decode bench_token settings.jwt_secret settings.resource_url settings.issuer_url n
          ≡ some (issued_claims bench_provider "operator-agent" ("tickets:read" ∷ []) d operator))
      (apart : c.sha256 d.refresh ≢ c.sha256 bench_token) where
    laps_with-durations :
        (limiter : Limiter) (laps : List Lap) (db : Db)
        → length laps * one_token ≤ limiter.capacity
        → AllInTime bench_iat bench_expiry laps
        → laps_with
            (bench_gateway limiter)
            (record { db = db; buckets = [] })
            laps
            (issue_pair bench_provider "operator-agent"
              ("tickets:read" ∷ [])
              settings.resource_url
              d
              db)
          ≡ some (durations laps)
    laps_with-durations limiter laps db fits in_time =
        laps_with-issued (bench_gateway limiter) (record { db = db; buckets = [] }) laps _ _
          (issue_pair-known bench_provider "operator-agent" ("tickets:read" ∷ []) d operator db
            operator_known)
        ∙ run_laps-durations (bench_gateway limiter) bench_token bench_access bench_iat bench_expiry
            reader_lists laps _ in_time
            (λ n m begun early live.
              load-issue_pair bench_provider "operator-agent" ("tickets:read" ∷ []) d operator n m
                db operator_known (decodes n begun early) apart live)
            fits (λ k b e. cc)

    -- The benchmark finishes, and has the durations of all its laps: with the shipped policy no call is
    -- refused, since the limiter has ten tokens more than there are laps. This is if the laps are over
    -- before the access token expires, none before its `iat`, the JWT library decodes it in this time to the
    -- claims it encodes, and the two new tokens have different digests.
    pub run_timings-durations :
        (now : ℕ) (laps : List Lap)
        → AllInTime bench_iat bench_expiry laps
        → run_timings c shipped settings now d laps ≡ some (durations laps)
    unfolding run_timings create_runtime issued_laps
    run_timings-durations now laps in_time =
        rw
          (new_limiter-some (length laps + 10) ((length laps + 10) * 1_000_000) (omega arith)
            (omega arith))
          (ap
              (laps_with (bench_gateway (bench_limiter (length laps)))
                (record { db = seed now new_db; buckets = [] }) laps)
              (issue_for_client-granted bench_provider "operator-agent" "operator-local-secret"
                (some ("tickets:read" ∷ [])) ("tickets:read" ∷ []) d (seed now new_db) operator
                operator_known operator_compared operator_reads)
            ∙ laps_with-durations (bench_limiter (length laps)) laps (seed now new_db) (omega arith)
                in_time)
