-- ===== src/Server/Calls/Replied.antt =====
-- A tool's call that the guards let through, seen from the server's handler.
use mcpgate.Prelude.{ℕ, String, ◌≡◌, ap, ◌∙◌, some}
use mcpgate.Gateway.Dispatch.{Reply}
use mcpgate.Gateway.Pipeline.{Gateway, State, Readings, Outcome, returned, invoke}
use mcpgate.Server.Tools.{ToolCall, Caller, handled_of, invocation_of, handle}
use mcpgate.Server.Calls.{calls, Answer, replied, Sdk, Request, planned, audited, audited_call_tool}
use mcpgate.Server.Calls.Once.{IsRewrapping}

module _ (sdk : Sdk) (laws : IsRewrapping sdk) (g : Gateway) (q : Request) (r : Readings) (now : ℕ)
    (s : State) (caller : Caller) (id : String) (call : ToolCall) (reply : Reply) where
  answered :
      (o : Outcome × State)
      → o.0 ≡ returned reply
      → audited g q now (sdk.wrap (handled_of o).0, (handled_of o).1) ≡ (replied reply, o.1)
  unfolding audited
  answered (o, s') h =
      ap
        (λ (x : Outcome). audited g q now (sdk.wrap (handled_of (x, s')).0, (handled_of (x, s')).1))
        h
      ∙ ap (λ (a : Answer). audited g q now (a, s')) (laws.replies reply)

  -- Where the SDK hands the call of a request with a token to the tool's function and `invoke` returns,
  -- the handler answers with the reply and leaves the state as `invoke` does.
  pub audited_call_tool-returned :
      q.caller ≡ some caller
      → q.request_id ≡ some id
      → sdk.plan q.name q.arguments ≡ calls call
      → (invoke g (invocation_of caller id call) r s).0 ≡ returned reply
      → audited_call_tool sdk g q r now s
        ≡ (replied reply, (invoke g (invocation_of caller id call) r s).1)
  unfolding audited_call_tool planned handle
  audited_call_tool-returned known named plan h =
      rw (plan, known, named) (answered (invoke g (invocation_of caller id call) r s) h)
