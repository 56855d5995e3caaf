-- ===== src/Server/Tools/Agreement.antt =====
-- The arguments that the server's tools pass on are those that the gateway declares.
use mcpgate.Prelude.{
  ◌≡◌, ◌⊎◌, inl, inr, refl, Bool, true, false, none, some, ◌==◌, ℤ, arith, Bool-cases, below_one,
}
use mcpgate.Result.{Code, Result, ok, err, refused, fault, refuse}
use mcpgate.Gateway.Clean.{Clean}
use mcpgate.Gateway.Validate.{validate_inputs, coerce_args, coerce_text, coerce_integer}
use mcpgate.Server.Tools.{
  ToolCall, list_tickets, get_ticket, create_ticket, update_ticket_status, audit_recent, tool_name,
  args_of_call,
}

-- The codes that speak of a value, not of the tool or of the names and types of its arguments.
abbrev pub is_about_value : Code → Bool
is_about_value Code.input_too_long = true
is_about_value Code.control_character = true
is_about_value Code.invalid_input = true
is_about_value Code.invalid_status = true
is_about_value _ = false

-- Validation passed, or refused a value.
abbrev pub FitsDeclared : Result Clean → Type 0
FitsDeclared (ok clean) = Unit
FitsDeclared (err (refused code wait)) = is_about_value code ≡ true
FitsDeclared (err fault) = ⊥

-- No call of a tool's function with an id of at least 1 is refused for its tool's name or for the names
-- or types of its arguments, and none is a fault: the server's tools and the gateway's ARGUMENT_TYPES
-- agree. An id below 1 is refused by `get_ticket` as one of a wrong type.
pub tools_agree :
    (call : ToolCall)
    → (FitsDeclared (validate_inputs (tool_name call) (args_of_call call)))
      ⊎ ((id : ℤ) × (call ≡ get_ticket id)
          × (below_one id ≡ true)
          × (validate_inputs (tool_name call) (args_of_call call)
              ≡ refuse Code.invalid_argument_type))
unfolding validate_inputs coerce_args coerce_text coerce_integer ◌==◌
tools_agree (list_tickets none) = inl tt
tools_agree (list_tickets (some status)) = inl (ground arith)
tools_agree (get_ticket id) = elim (Bool-cases (below_one id)) [
  | inl low ↦ inr (id, refl, low, rw low refl)
  | inr fine ↦ inl (rw fine tt)
]
tools_agree (create_ticket team title body) = inl (ground arith)
tools_agree (update_ticket_status id status) = inl (ground arith)
tools_agree (audit_recent limit) = inl tt
