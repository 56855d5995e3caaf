-- ===== src/Tests/Views.antt =====
-- What callers see, at calls of the small deployment.
use mcpgate.Prelude.{◌≡◌, refl, true, false, none, some, [], ◌∷◌, ◌++◌, ◌==◌, arith}
use mcpgate.Result.{Code, ok}
use mcpgate.Policy.Order.{sorted_set}
use mcpgate.Store.Narrowed.{narrowed, narrowed_outcome}
use mcpgate.Audit.{reconstruct}
use mcpgate.Gateway.Dispatch.{row, visible_ticket, dispatch, direct}
use mcpgate.Gateway.Dispatch.Narrowed.{dispatch-narrowed}
use mcpgate.Gateway.Pipeline.{invoke}
use mcpgate.RateLimit.{allowed, one_token, allow}
use mcpgate.Policy.{granted, require_tool}
use mcpgate.Store.Tickets.{get_ticket}
use mcpgate.Gateway.Pipeline.Isolation.{narrowed_state, invoke-narrowed}
use mcpgate.Gateway.Pipeline.Audited.{serve}
use mcpgate.Gateway.Pipeline.Baseline.{direct-invoke}
use mcpgate.Gateway.Pipeline.Probe.{Answered, probe_shown}
use mcpgate.Gateway.Pipeline.Session.{names_one, transcript, reconstruct-serve}
use mcpgate.Tests.World.{db, gateway, state, readings, reading, alpha_ticket, get_rule}
use mcpgate.Tests.Guards.{
  access, asked, two_calls, db-IsKeyed, run_returns, run_hides, ann_loads, asked_passes,
}

dispatch-narrowed_example :
    dispatch "get_ticket" asked access 8 (narrowed ("alpha" ∷ []) db)
    ≡ narrowed_outcome ("alpha" ∷ []) (dispatch "get_ticket" asked access 8 db)
dispatch-narrowed_example = dispatch-narrowed "get_ticket" asked access 8 db db-IsKeyed

invoke-narrowed_example :
    (invoke gateway (reading 2) readings (narrowed_state access state)).0
    ≡ (invoke gateway (reading 2) readings state).0
invoke-narrowed_example =
    invoke-narrowed gateway (reading 2) readings access state db-IsKeyed ann_loads

probe_example : Answered gateway (reading 2) readings state ("alpha" ∷ []) 2
unfolding ◌==◌
probe_example =
    probe_shown ("alpha" ∷ []) gateway (reading 2) readings state 2 Code.not_found none refl refl
      (omega arith) run_hides

alpha_sorted : ("alpha" ∷ []) ≡ sorted_set ("alpha" ∷ [])
unfolding sorted_set
alpha_sorted = refl

direct_example :
    (direct "get_ticket" asked ("alpha" ∷ []) "ann" 8 db).0 ≡ ok (row (some alpha_ticket))
direct_example =
    direct-invoke gateway (reading 1) readings state (row (some alpha_ticket)) ("alpha" ∷ []) access
      asked db-IsKeyed run_returns ann_loads asked_passes alpha_sorted

s_is_named : ("s" == "") ≡ false
unfolding ◌==◌
s_is_named = refl

reading_named : names_one (some "s") ≡ true
unfolding ◌==◌
reading_named = refl

reconstruct_example :
    reconstruct "s" (serve gateway two_calls state).db
    ≡ reconstruct "s" db ++ transcript gateway "s" two_calls state
reconstruct_example =
    reconstruct-serve gateway "s" two_calls state s_is_named (reading_named, (reading_named, tt))
      (omega arith)

ann_allowed : (allow gateway.limiter "ann" one_token 7 []).0 ≡ allowed
unfolding allow
ann_allowed = refl

ann_may_read : require_tool gateway.policy "get_ticket" ("tickets:read" ∷ []) ≡ granted get_rule
unfolding require_tool ◌==◌
ann_may_read = refl

ticket_shown : (dispatch "get_ticket" asked access 8 db).0 ≡ ok (row (some alpha_ticket))
unfolding dispatch visible_ticket get_ticket ◌==◌
ticket_shown = refl
