-- ===== src/Server/Errors.antt =====
-- src/mcpgate/server.py: `_already_audited`, which walks the chain of a raised exception.
pub mod Walk
use mcpgate.Prelude.{
  ℕ, zero, suc, ◌+◌, Bool, true, false, ◌||◌, Option, none, some, List, [], ◌∷◌, nat_eq, length,
  get_elem?, if◌then◌else◌,
}

-- An exception object: whether it is an `AuditedToolError`, its `__cause__` and its `__context__`. An
-- object is named by its place in the list of those that there are, which stands for its `id`.
pub record Raised : Type 0 where
  pub audited : Bool
  pub cause : Option ℕ
  pub context : Option ℕ

abbrev pub Errors : Type 0
Errors = List Raised

-- `a or b` on what may be None. An exception object is true.
abbrev pub or_else : Option ℕ → Option ℕ → Option ℕ
or_else none o = o
or_else (some i) o = some i

abbrev following : Option Raised → Option ℕ
following none = none
following (some e) = or_else e.cause e.context

abbrev marked : Option Raised → Bool
marked none = false
marked (some e) = e.audited

-- `current.__cause__ or current.__context__`
abbrev pub next_error : Errors → ℕ → Option ℕ
next_error errors i = following (get_elem? errors i)

-- `isinstance(current, AuditedToolError)`
abbrev pub is_audited : Errors → ℕ → Bool
is_audited errors i = marked (get_elem? errors i)

-- `id(current) in seen`
abbrev pub is_seen : ℕ → List ℕ → Bool
is_seen i [] = false
is_seen i (j ∷ seen) = nat_eq i j || is_seen i seen

-- The loop, on fuel: `none` is a loop that has not ended yet.
unfoldable pub walk : Errors → ℕ → List ℕ → Option ℕ → Option Bool
walk errors zero seen current = none
walk errors (suc fuel) seen none = some false
walk errors (suc fuel) seen (some i) =
    let rest = walk errors fuel (i ∷ seen) (next_error errors i) in
    if is_seen i seen then some false else if is_audited errors i then some true else rest

-- One turn for each object, and one to end.
unfoldable pub already_audited : Errors → ℕ → Option Bool
already_audited errors i = walk errors (length errors + 2) [] (some i)
