-- ===== src/Benchmark.antt =====
-- src/mcpgate/benchmark.py: `percentile` and `run_benchmark`. A duration is in units of 10 ^ -6
-- milliseconds; the report's numbers are in halves of that unit, since a median may be the mean of two.
-- What floats and `round` make of `(len(ordered) - 1) * p`, and `round(x, 4)`, are parameters.
pub mod Percentile
pub mod Laps
pub mod Finishes
pub mod Median
pub mod Reports
use mcpgate.Prelude.{
  ℕ, zero, suc, ◌+◌, ◌-◌, ◌*◌, ◌/◌, ◌%◌, String, Option, none, some, List, [], ◌∷◌, ℤ, pos, negsuc,
  leb, ltb, nat_eq, min, length, get_elem?, if◌then◌else◌,
}
use mcpgate.Crypto.{Crypto}
use mcpgate.Policy.{Policy}
use mcpgate.Store.{Db, new_db}
use mcpgate.Auth.Types.{Settings, AuthResult}
use mcpgate.Auth.Issue.{Draw, OauthToken, issue_for_client}
use mcpgate.Runtime.{create_runtime}
use mcpgate.Result.{Result, ok, err}
use mcpgate.Value.{Value}
use mcpgate.Gateway.Clean.{nothing}
use mcpgate.Gateway.Dispatch.{Reply, direct}
use mcpgate.Gateway.Pipeline.{
  Invocation, Gateway, State, Readings, Outcome, returned, raised, crashed, invoke,
}

pub insert_value : ℕ → List ℕ → List ℕ
insert_value x [] = x ∷ []
insert_value x (y ∷ ys) = if leb x y then x ∷ y ∷ ys else y ∷ insert_value x ys

-- `sorted(values)`
pub sorted : List ℕ → List ℕ
unfolding insert_value
sorted [] = []
sorted (x ∷ xs) = insert_value x (sorted xs)

-- `len(ordered) - 1`
pub last_index : ℕ → ℤ
last_index zero = negsuc 0
last_index (suc n) = pos n

-- `max(0, n)`
pub not_negative : ℤ → ℕ
not_negative (pos n) = n
not_negative (negsuc n) = 0

-- `min(n, m)`
at_most : ℤ → ℕ → ℤ
at_most (pos n) m = pos (min n m)
at_most (negsuc n) m = negsuc n

-- `values[index]`, from the end for a negative index: `none` is an IndexError.
nth : List ℕ → ℤ → Option ℕ
nth values (pos n) = get_elem? values n
nth values (negsuc n) =
    if ltb n (length values) then get_elem? values (length values - (n + 1)) else none

index_of : (ℤ → ℤ) → ℕ → ℤ
unfolding last_index not_negative at_most
index_of rank n = at_most (last_index n) (not_negative (rank (last_index n)))

unfoldable pub percentile : (ℤ → ℤ) → List ℕ → Option ℕ
unfolding sorted nth index_of
percentile rank values = nth (sorted values) (index_of rank (length (sorted values)))

-- The readings of `perf_counter` in one turn of the loop, and what its two calls read.
pub record Lap : Type 0 where
  pub direct_started : ℕ
  pub direct_ended : ℕ
  pub governed_started : ℕ
  pub governed_ended : ℕ
  pub write_now : ℕ
  pub readings : Readings

-- The two lists of durations.
pub record Times : Type 0 where
  pub direct_ms : List ℕ
  pub governed_ms : List ℕ

-- `Invocation("list_tickets", {"status": None}, pair.access_token, "benchmark")`
abbrev pub governed_call : String → Invocation
governed_call token = record {
  tool = "list_tickets";
  args = ("status", Value.null) ∷ [];
  token = token;
  session_id = some "benchmark";
}

-- `direct("list_tickets", {"status": None}, {"alpha", "beta"}, "bench")`
abbrev pub direct_call : ℕ → State → Result Reply × State
direct_call now s =
    let (reply, db) =
      direct "list_tickets" (("status", nothing) ∷ []) ("alpha" ∷ "beta" ∷ []) "bench" now s.db in
    (reply, record s { db = db })

-- `perf_counter` does not fall.
add_lap : Lap → Option Times → Option Times
add_lap lap none = none
add_lap lap (some times) = some (record {
  direct_ms = (lap.direct_ended - lap.direct_started) ∷ times.direct_ms;
  governed_ms = (lap.governed_ended - lap.governed_started) ∷ times.governed_ms;
})

-- An exception of either call ends the loop.
unless_failed : Result Reply → Outcome → Option Times → Option Times
unless_failed (err e) o times = none
unless_failed (ok x) (raised code wait) times = none
unless_failed (ok x) crashed times = none
unless_failed (ok x) (returned y) times = times

-- The loop: a lap is one turn. `none` is an exception.
unfoldable pub run_laps : Gateway → String → List Lap → State → Option Times
unfolding add_lap unless_failed
run_laps g token [] s = some (record { direct_ms = []; governed_ms = [] })
run_laps g token (lap ∷ laps) s =
    let (reply, s1) = direct_call lap.write_now s in
    let (outcome, s2) = invoke g (governed_call token) lap.readings s1 in
    unless_failed reply outcome (add_lap lap (run_laps g token laps s2))

laps_with : Gateway → State → List Lap → AuthResult OauthToken × Db → Option Times
unfolding run_laps
laps_with g s laps (AuthResult.err e, db) = none
laps_with g s laps (AuthResult.ok pair, db) =
    run_laps g pair.access_token laps (record s { db = db })

issued_laps : Draw → List Lap → Option (Gateway × State) → Option Times
unfolding laps_with
issued_laps d laps none = none
issued_laps d laps (some (g, s)) = laps_with g s laps (
    issue_for_client g.provider "operator-agent" "operator-local-secret"
      (some ("tickets:read" ∷ [])) d s.db)

-- `run_benchmark` up to its report, with one lap for each iteration: `none` is an exception.
unfoldable pub run_timings : Crypto → Policy → Settings → ℕ → Draw → List Lap → Option Times
unfolding issued_laps
run_timings c p settings now d laps =
    let capacity = length laps + 10 in
    issued_laps d laps (create_runtime c p settings capacity (capacity * 1_000_000) now new_db)

-- Twice `statistics.median`: the middle value, or the mean of the middle two. `none` is its
-- StatisticsError on no values.
add_values : Option ℕ → Option ℕ → Option ℕ
add_values none b = none
add_values (some a) none = none
add_values (some a) (some b) = some (a + b)

median_at : List ℕ → ℕ → Option ℕ
unfolding add_values
median_at ordered n =
    if nat_eq n 0
    then none
    else if nat_eq (n % 2) 1
    then add_values (get_elem? ordered (n / 2)) (get_elem? ordered (n / 2))
    else add_values (get_elem? ordered (n / 2 - 1)) (get_elem? ordered (n / 2))

unfoldable pub twice_median : List ℕ → Option ℕ
unfolding median_at sorted
twice_median values = median_at (sorted values) (length (sorted values))

-- `a - b`
difference : ℕ → ℕ → ℤ
difference a b = if leb b a then pos (a - b) else negsuc (b - a - 1)

pub record Report : Type 0 where
  pub iterations : ℕ
  pub direct_median_ms : ℤ
  pub direct_p95_ms : ℤ
  pub governed_median_ms : ℤ
  pub governed_p95_ms : ℤ
  pub median_overhead_ms : ℤ
  pub p95_overhead_ms : ℤ

-- The report of twice the medians and of the percentiles, rounded by `round(x, 4)`.
unfoldable pub report_of : (ℤ → ℤ) → ℕ → ℕ → ℕ → ℕ → ℕ → Report
unfolding difference
report_of round4 iterations direct_median direct_p95 governed_median governed_p95 = record {
  iterations = iterations;
  direct_median_ms = round4 (pos direct_median);
  direct_p95_ms = round4 (pos (2 * direct_p95));
  governed_median_ms = round4 (pos governed_median);
  governed_p95_ms = round4 (pos (2 * governed_p95));
  median_overhead_ms = round4 (difference governed_median direct_median);
  p95_overhead_ms = round4 (difference (2 * governed_p95) (2 * direct_p95));
}

infixl 5 ◌>>=◌
abbrev ◌>>=◌ : {A B : Type 0} → Option A → (A → Option B) → Option B
none >>= next = none
some a >>= next = next a

reported : (ℤ → ℤ) → (ℤ → ℤ) → ℕ → Option Times → Option Report
reported rank round4 iterations result = do
  times ← result
  direct_median ← twice_median times.direct_ms
  direct_p95 ← percentile rank times.direct_ms
  governed_median ← twice_median times.governed_ms
  governed_p95 ← percentile rank times.governed_ms
  some (report_of round4 iterations direct_median direct_p95 governed_median governed_p95)

-- `run_benchmark`, with one lap for each iteration: `none` is an exception.
unfoldable pub run_benchmark :
    (ℤ → ℤ) → (ℤ → ℤ) → Crypto → Policy → Settings → ℕ → Draw → List Lap → Option Report
unfolding reported
run_benchmark rank round4 c p settings now d laps =
    reported rank round4 (length laps) (run_timings c p settings now d laps)
