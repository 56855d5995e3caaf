-- ===== src/Benchmark/Laps.antt =====
-- The benchmark's two samples, and that its percentiles exist.
use mcpgate.Prelude.{
  ℕ, suc, ◌+◌, ◌*◌, ◌≤◌, String, ◌≡◌, refl, ap, subst, Option, none, some, List, [], ◌∷◌, ℤ, length,
  arith,
}
use mcpgate.Crypto.{Crypto}
use mcpgate.Policy.{Policy}
use mcpgate.Result.{Result, ok, err}
use mcpgate.Store.{Db, new_db}
use mcpgate.Auth.Types.{Settings, AuthResult}
use mcpgate.Auth.Issue.{Draw, OauthToken, issue_for_client}
use mcpgate.Runtime.{create_runtime}
use mcpgate.Gateway.Dispatch.{Reply}
use mcpgate.Gateway.Pipeline.{Gateway, State, Outcome, returned, raised, crashed, invoke}
use mcpgate.Benchmark.{
  Lap, Times, direct_call, governed_call, add_lap, unless_failed, run_laps, laps_with, issued_laps,
  run_timings, percentile,
}
use mcpgate.Benchmark.Percentile.{percentile_lem}

-- One duration for each lap, of both calls.
abbrev pub Measures : ℕ → Times → Type 0
Measures n times = (length times.direct_ms ≡ n) × (length times.governed_ms ≡ n)

some-injective : {a b : Times} → some a ≡ some b → a ≡ b
some-injective h = cc

one_more :
    (lap : Lap) (reply : Result Reply) (o : Outcome) (rest : Option Times) (times : Times) (n : ℕ)
    → ((t : Times) → rest ≡ some t → Measures n t)
    → unless_failed reply o (add_lap lap rest) ≡ some times
    → Measures (suc n) times
unfolding unless_failed add_lap
one_more lap (err e) o rest times n ih h = cc
one_more lap (ok x) (raised code wait) rest times n ih h = cc
one_more lap (ok x) crashed rest times n ih h = cc
one_more lap (ok x) (returned y) none times n ih h = cc
one_more lap (ok x) (returned y) (some t) times n ih h =
    let (direct, governed) = ih t refl in
    subst (Measures (suc n)) (some-injective h) (ap suc direct, ap suc governed)

pub run_laps-Measures :
    (g : Gateway) (token : String) (laps : List Lap) (s : State) (times : Times)
    → run_laps g token laps s ≡ some times
    → Measures (length laps) times
unfolding run_laps
run_laps-Measures g token [] s times h = subst (Measures 0) (some-injective h) (refl, refl)
run_laps-Measures g token (lap ∷ laps) s times h =
    let (reply, s1) = direct_call lap.write_now s in
    let (outcome, s2) = invoke g (governed_call token) lap.readings s1 in
    one_more lap reply outcome (run_laps g token laps s2) times (length laps)
      (λ t e. run_laps-Measures g token laps s2 t e) h

laps_with-Measures :
    (g : Gateway) (s : State) (laps : List Lap) (issued : AuthResult OauthToken × Db)
    (times : Times)
    → laps_with g s laps issued ≡ some times
    → Measures (length laps) times
unfolding laps_with
laps_with-Measures g s laps (AuthResult.err e, db) times h = cc
laps_with-Measures g s laps (AuthResult.ok pair, db) times h =
    run_laps-Measures g pair.access_token laps (record s { db = db }) times h

issued_laps-Measures :
    (d : Draw) (laps : List Lap) (made : Option (Gateway × State)) (times : Times)
    → issued_laps d laps made ≡ some times
    → Measures (length laps) times
unfolding issued_laps
issued_laps-Measures d laps none times h = cc
issued_laps-Measures d laps (some (g, s)) times h =
    laps_with-Measures g s laps
      (issue_for_client g.provider "operator-agent" "operator-local-secret"
        (some ("tickets:read" ∷ [])) d s.db)
      times h

module _ (c : Crypto) (p : Policy) (settings : Settings) (now : ℕ) (d : Draw) (laps : List Lap)
    (times : Times) (finished : run_timings c p settings now d laps ≡ some times) where
  -- A benchmark that finishes has one duration of each kind for each lap.
  pub run_timings-Measures : Measures (length laps) times
  unfolding run_timings
  run_timings-Measures =
      let capacity = length laps + 10 in
      issued_laps-Measures d laps
        (create_runtime c p settings capacity (capacity * 1_000_000) now new_db) times finished

  -- With at least one lap the report's percentiles of both samples exist, whatever the rounding of the rank.
  pub percentile-run_timings :
      (rank : ℤ → ℤ)
      → 1 ≤ length laps
      → ((v : ℕ) × (percentile rank times.direct_ms ≡ some v))
        × ((v : ℕ) × (percentile rank times.governed_ms ≡ some v))
  percentile-run_timings rank many =
      let (m, n) = run_timings-Measures in
      let (v, direct, _, _) = percentile_lem rank times.direct_ms (ground (arith, m, many)) in
      let (w, governed, _, _) = percentile_lem rank times.governed_ms (ground (arith, n, many)) in
      ((v, direct), (w, governed))
