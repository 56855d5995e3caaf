-- ===== src/Tests/Laps.antt =====
-- The benchmark, run for two laps on a small deployment.
use mcpgate.Prelude.{◌≡◌, refl, false, some, List, [], ◌∷◌, ℤ, ◌==◌, ne_of_test, arith}
use mcpgate.Policy.{client, authorize_scopes, require_tool, Policy}
use mcpgate.Policy.Order.{sorted_set}
use mcpgate.RateLimit.{allow, new_limiter}
use mcpgate.Store.Tickets.{get_ticket, create_ticket, list_tickets, seed}
use mcpgate.Store.Artifacts.{put_artifact, get_artifact}
use mcpgate.Store.Events.{audit_events, append_audit, last_audit_hash}
use mcpgate.Value.{loads, of_args}
use mcpgate.Audit.{record_event, safe_args, is_redacted, canonical}
use mcpgate.Auth.Issue.{compare_digest, issue_for_client, issue_pair, issue_to}
use mcpgate.Auth.Access.{load_access_token}
use mcpgate.Gateway.Validate.{validate_inputs, coerce_args, coerce_integer, coerce_text}
use mcpgate.Gateway.Dispatch.{dispatch, direct, visible_ticket}
use mcpgate.Gateway.Pipeline.{Readings, guarded, invoke, subject_team, session_id_of, action_name}
use mcpgate.Runtime.{create_runtime}
use mcpgate.Benchmark.{Lap, run_laps, run_timings, run_benchmark}
use mcpgate.Benchmark.Finishes.{durations, bench_provider}
use mcpgate.Benchmark.Reports.{Reports, run_benchmark-Reports}
use mcpgate.Policy.Shipped.{shipped, operator}
use mcpgate.Crypto.{Claims, Crypto}
use mcpgate.Auth.Issue.{claims_of}
use mcpgate.Tests.World.{crypto, provider, readings, draw, ann, while_live, live-while_live}

abbrev bench_policy : Policy
bench_policy = record {
  clients =
      (
        "operator-agent",
        record ann { client_id = "operator-agent"; secret = "operator-local-secret" },
      )
      ∷ [];
  tools =
      ("list_tickets", record { name = "list_tickets"; scope = "tickets:read"; action = "read" })
      ∷ [];
}

abbrev lap_readings : Readings
lap_readings = record readings { decode_now = 2_000_005; artifact_now = 2_000_006 }

abbrev two_laps : List Lap
two_laps =
    record {
      direct_started = 10;
      direct_ended = 17;
      governed_started = 20;
      governed_ended = 41;
      write_now = 8;
      readings = lap_readings;
    }
    ∷ record {
      direct_started = 50;
      direct_ended = 55;
      governed_started = 60;
      governed_ended = 73;
      write_now = 8;
      readings = lap_readings;
    }
    ∷ []

run_timings_runs :
    run_timings crypto bench_policy provider.settings 5 draw two_laps
    ≡ some (record { direct_ms = 7 ∷ 5 ∷ []; governed_ms = 21 ∷ 13 ∷ [] })
unfolding run_timings run_laps create_runtime new_limiter issue_for_client compare_digest issue_pair
    issue_to authorize_scopes client sorted_set put_artifact get_artifact load_access_token invoke
    guarded subject_team session_id_of action_name allow require_tool validate_inputs coerce_args
    coerce_integer coerce_text dispatch direct visible_ticket get_ticket create_ticket list_tickets
    seed record_event append_audit last_audit_hash audit_events safe_args is_redacted canonical
    loads of_args ◌==◌
run_timings_runs = refl

abbrev bench_claims : Claims
bench_claims =
    claims_of (bench_provider crypto provider.settings draw) operator "operator-agent"
      ("tickets:read" ∷ []) "url" draw

-- A JWT library that knows the benchmark's token.
abbrev bench_crypto : Crypto
bench_crypto = record crypto {
  jwt_decode = λ token secret aud iss now. while_live bench_claims now;
}

new_not_jwt : ("new" == "jwt") ≡ false
unfolding ◌==◌
new_not_jwt = refl

-- Without rounding, at the place of the largest value.
abbrev exactly : ℤ → ℤ
exactly n = n

run_benchmark_example :
    Reports exactly exactly 2
      (durations two_laps)
      (run_benchmark exactly exactly bench_crypto shipped provider.settings 5 draw two_laps)
run_benchmark_example =
    run_benchmark-Reports exactly exactly bench_crypto provider.settings 5 draw two_laps
      (omega arith) ((omega arith, refl, refl), ((omega arith, refl, refl), tt))
      (λ n begun early. live-while_live bench_claims n begun early)
      (ne_of_test "new" "jwt" new_not_jwt)
