-- ===== src/Tests/Rebuilt.antt =====
-- The demo, run on a small deployment.
use mcpgate.Prelude.{◌≡◌, refl, true, false, some, List, [], ◌∷◌, ◌==◌}
use mcpgate.Policy.{client, authorize_scopes, require_tool, Policy}
use mcpgate.Policy.Order.{sorted_set}
use mcpgate.RateLimit.{allow, new_limiter}
use mcpgate.Store.Tickets.{get_ticket, create_ticket, list_tickets, seed}
use mcpgate.Store.Artifacts.{put_artifact, get_artifact}
use mcpgate.Store.Events.{audit_events, append_audit, last_audit_hash}
use mcpgate.Value.{loads, of_args}
use mcpgate.Audit.{
  record_event, reconstruct, verify_chain, verify_from, safe_args, is_redacted, canonical,
}
use mcpgate.Auth.Issue.{compare_digest, issue_for_client, issue_pair, issue_to}
use mcpgate.Auth.Access.{load_access_token}
use mcpgate.Gateway.Validate.{validate_inputs, coerce_args, coerce_integer, coerce_text}
use mcpgate.Gateway.Dispatch.{dispatch, visible_ticket}
use mcpgate.Gateway.Pipeline.{Readings, guarded, invoke, subject_team, session_id_of, action_name}
use mcpgate.Runtime.{create_runtime}
use mcpgate.Demo.{Checks, checks_of, all_hidden, run_attempts, run_session, demo}
use mcpgate.Demo.Passes.{Passes, demo-Passes}
use mcpgate.Tests.World.{crypto, provider, readings, draw, get_rule, ann}

abbrev demo_policy : Policy
demo_policy = record {
  clients =
      (
        "operator-agent",
        record ann { client_id = "operator-agent"; secret = "operator-local-secret" },
      )
      ∷ (
        "readonly-agent",
        record ann { client_id = "readonly-agent"; secret = "readonly-local-secret" },
      )
      ∷ [];
  tools = ("get_ticket", get_rule) ∷ [];
}

abbrev five : List Readings
five = readings ∷ readings ∷ readings ∷ readings ∷ readings ∷ []

abbrev seen : Checks
seen = record {
  on_record = true;
  counted = false;
  redacted = true;
  intact = true;
  untouched = true;
  detected = false;
}

demo_runs : demo crypto demo_policy provider.settings 5 draw draw five ≡ some seen
unfolding demo run_session run_attempts checks_of all_hidden create_runtime new_limiter
    issue_for_client compare_digest issue_pair issue_to authorize_scopes client sorted_set
    put_artifact get_artifact load_access_token invoke guarded subject_team session_id_of
    action_name allow require_tool validate_inputs coerce_args coerce_integer coerce_text dispatch
    visible_ticket get_ticket create_ticket list_tickets seed record_event append_audit
    last_audit_hash reconstruct verify_chain verify_from audit_events safe_args is_redacted
    canonical loads of_args ◌==◌
demo_runs = refl

demo_example : Passes seen
demo_example = demo-Passes crypto demo_policy provider.settings 5 draw draw five refl seen demo_runs
