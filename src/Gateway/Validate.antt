-- ===== src/Gateway/Validate.antt =====
-- src/mcpgate/gateway.py: `ARGUMENT_TYPES`, `_coerce_integer`, `_coerce_text`, `_validate_inputs`.
pub mod Shapes
pub mod Requests
use Prim.Native.Char.{code}
use Prim.Native.String.{count}
use mcpgate.Prelude.{
  ℕ, String, Bool, true, false, ◌&&◌, ◌||◌, not, Option, none, some, List, [], ◌∷◌, below_one, ltb,
  leb, nat_eq, ◌==◌, contains, is_subset, lookup, if◌then◌else◌,
}
use mcpgate.Result.{Code, Result, ok, refuse, refuse_if, ◌>>=◌, ◌>>◌}
use mcpgate.Value.{Value, Args}
use mcpgate.Gateway.Clean.{Arg, nothing, whole, words, Clean, keys, get_words, get_whole}

-- The kinds that `ARGUMENT_TYPES` declares.
pub data ArgKind : Type 0 where
  text integer optional_text optional_integer : ArgKind

-- `kind.startswith("optional_")`
abbrev pub is_optional : ArgKind → Bool
is_optional ArgKind.text = false
is_optional ArgKind.integer = false
is_optional ArgKind.optional_text = true
is_optional ArgKind.optional_integer = true

-- `kind.removeprefix("optional_") == "integer"`
abbrev pub is_integer : ArgKind → Bool
is_integer ArgKind.text = false
is_integer ArgKind.integer = true
is_integer ArgKind.optional_text = false
is_integer ArgKind.optional_integer = true

abbrev pub Declared : Type 0
Declared = List (String × ArgKind)

abbrev pub argument_types : List (String × Declared)
argument_types =
    ("list_tickets", ("status", ArgKind.optional_text) ∷ [])
    ∷ ("get_ticket", ("ticket_id", ArgKind.integer) ∷ [])
    ∷ (
      "create_ticket",
      ("team", ArgKind.text) ∷ ("title", ArgKind.text) ∷ ("body", ArgKind.text) ∷ [],
    )
    ∷ ("update_ticket_status", ("ticket_id", ArgKind.integer) ∷ ("status", ArgKind.text) ∷ [])
    ∷ ("audit_recent", ("limit", ArgKind.optional_integer) ∷ [])
    ∷ []

abbrev pub valid_statuses : List String
valid_statuses = "open" ∷ "in_progress" ∷ "resolved" ∷ "closed" ∷ "planned" ∷ []

abbrev pub codes : String → List ℕ
codes String.[] = []
codes (String.◌∷◌ c s) = code c ∷ codes s

abbrev pub any_code : (ℕ → Bool) → List ℕ → Bool
any_code p [] = false
any_code p (c ∷ cs) = p c || any_code p cs

-- `[\x00-\x08\x0b\x0c\x0e-\x1f\x7f]`
abbrev pub is_control : ℕ → Bool
is_control c = leb c 8 || (nat_eq c 11 || (nat_eq c 12 || ((leb 14 c && leb c 31) || nat_eq c 127)))

-- `CONTROL_CHARACTERS.search(value)`, as a test
unfoldable pub has_control : String → Bool
has_control s = any_code is_control (codes s)

-- `str.isspace` on a code point
unfoldable pub is_space : ℕ → Bool
is_space c =
    (leb 9 c && leb c 13)
    || ((leb 28 c && leb c 32)
        || (nat_eq c 0x85
            || (nat_eq c 0xa0
                || (nat_eq c 0x1680
                    || ((leb 0x2000 c && leb c 0x200a)
                        || (nat_eq c 0x2028
                            || (nat_eq c 0x2029
                                || (nat_eq c 0x202f || (nat_eq c 0x205f || nat_eq c 0x3000)))))))))

-- `not value.strip()`
unfoldable pub is_blank : String → Bool
unfolding is_space
is_blank s = not (any_code (λ c. not (is_space c)) (codes s))

-- A `bool` is not taken for an integer.
unfoldable pub coerce_integer : Value → Result Arg
coerce_integer (Value.integer n) = ok (whole n)
coerce_integer _ = refuse Code.invalid_argument_type

-- `_coerce_text` on a str.
coerce_str : String → Result Arg
coerce_str s = do
  refuse_if (ltb 4_000 (count s)) Code.input_too_long
  refuse_if (has_control s) Code.control_character
  ok (words s)

unfoldable pub coerce_text : Value → Result Arg
unfolding coerce_str
coerce_text (Value.text s) = coerce_str s
coerce_text _ = refuse Code.invalid_argument_type

-- The step of the loop for an argument that is missing or None.
missing : ArgKind → Result Arg
missing kind = if is_optional kind then ok nothing else refuse Code.missing_argument

present : ArgKind → Value → Result Arg
present kind Value.null = missing kind
present kind v = if is_integer kind then coerce_integer v else coerce_text v

coerce_arg : ArgKind → Option Value → Result Arg
coerce_arg kind none = missing kind
coerce_arg kind (some v) = present kind v

-- The loop over the declared arguments, in their order.
unfoldable pub coerce_args : Declared → Args → Result Clean
unfolding coerce_arg missing present
coerce_args [] args = ok []
coerce_args ((name, kind) ∷ declared) args = do
  a ← coerce_arg kind (lookup name args)
  rest ← coerce_args declared args
  ok ((name, a) ∷ rest)

-- The three checks after the loop.
unfoldable pub check_ticket : Clean → Result Clean
check_ticket clean = do
  title ← get_words "title" clean
  body ← get_words "body" clean
  refuse_if (is_blank title || is_blank body) Code.invalid_input
  ok clean

unfoldable pub check_status : Clean → Result Clean
check_status clean = do
  status ← get_words "status" clean
  refuse_if (not (contains valid_statuses status)) Code.invalid_status
  ok clean

unfoldable pub check_id : Clean → Result Clean
check_id clean = do
  id ← get_whole "ticket_id" clean
  refuse_if (below_one id) Code.invalid_argument_type
  ok clean

-- A tool has one name, so at most one of the three `if`s of the source is taken.
pub check_values : String → Clean → Result Clean
check_values tool clean =
    if tool == "create_ticket"
    then check_ticket clean
    else if tool == "update_ticket_status"
    then check_status clean
    else if tool == "get_ticket"
    then check_id clean
    else ok clean

validate_declared : String → Args → Option Declared → Result Clean
validate_declared tool args none = refuse Code.unknown_tool
validate_declared tool args (some declared) = do
  refuse_if (not (is_subset (keys args) (keys declared))) Code.unexpected_argument
  clean ← coerce_args declared args
  check_values tool clean

unfoldable pub validate_inputs : String → Args → Result Clean
unfolding validate_declared check_values check_ticket check_status check_id
validate_inputs tool args = validate_declared tool args (lookup tool argument_types)
