-- ===== src/Policy/Loading.antt =====
-- src/mcpgate/policy.py: `Policy.__init__`, from the value that `yaml.safe_load` returns. A mapping of
-- the file is an object. What `str` makes of a secret that is not a text is a parameter.
use Prim.Native.String
pub mod RoundTrip
pub mod Filed
use mcpgate.Prelude.{
  String, Bool, true, false, Option, none, some, List, [], ◌∷◌, ℤ, pos, negsuc, ◌==◌, nat_eq,
  if◌then◌else◌,
}
use mcpgate.Value.{
  Value, null, boolean, integer, floating, text, array, object, Items, nil, cons, Fields, end,
  field,
}
use mcpgate.Policy.{ClientPolicy, ToolPolicy, Policy}

-- How `__init__` ends: with a policy, a ValueError, or another exception (KeyError, AttributeError,
-- TypeError). `beyond` is a file that the model does not follow: with a scope, a team or an action that
-- is neither a text nor of a type that raises.
pub data Load {ℓ} (A : Type ℓ) : Type ℓ where
  loaded : A → Load A
  unsupported broken beyond : Load A

infixl 5 ◌>>=◌
abbrev ◌>>=◌ {ℓ κ} : {A : Type ℓ} {B : Type κ} → Load A → (A → Load B) → Load B
loaded a >>= next = next a
unsupported >>= next = unsupported
broken >>= next = broken
beyond >>= next = beyond

field_of : String → Fields → Option Value
field_of k end = none
field_of k (field j v fields) = if k == j then some v else field_of k fields

required : Option Value → Load Value
required none = broken
required (some v) = loaded v

-- `d[k]`, of what need not be a dict
item : String → Value → Load Value
unfolding field_of required
item k (object fields) = required (field_of k fields)
item k _ = broken

is_one : Value → Bool
is_one (boolean b) = b
is_one (integer (pos n)) = nat_eq n 1
is_one (integer (negsuc n)) = false
is_one (floating (pos n)) = nat_eq n 1_000_000
is_one (floating (negsuc n)) = false
is_one _ = false

given_one : Option Value → Bool
unfolding is_one
given_one none = false
given_one (some v) = is_one v

-- `raw.get("version") != 1`
pub version_one : Value → Load Bool
unfolding field_of given_one
version_one (object fields) = loaded (given_one (field_of "version" fields))
version_one _ = broken

as_text : Value → Load String
as_text (text s) = loaded s
as_text _ = beyond

-- A member of a set has to be hashable.
member : Value → Load String
unfolding as_text
member (array items) = broken
member (object fields) = broken
member v = as_text v

members : Items → Load (List String)
unfolding member
members nil = loaded []
members (cons v items) = do s ← member v; rest ← members items; loaded (s ∷ rest)

keys : Fields → List String
keys end = []
keys (field k v fields) = k ∷ keys fields

letters : String → List String
letters String.[] = []
letters (String.◌∷◌ c s) = String.◌∷◌ c String.[] ∷ letters s

-- `frozenset(v)`: of a text, the set of its characters.
frozenset : Value → Load (List String)
unfolding members keys letters
frozenset (array items) = members items
frozenset (object fields) = loaded (keys fields)
frozenset (text s) = loaded (letters s)
frozenset _ = broken

-- `str(v)`
str_of : (Value → String) → Value → String
str_of other (text s) = s
str_of other v = other v

client_of : (Value → String) → String → Value → Load ClientPolicy
unfolding item frozenset str_of
client_of other client_id spec = do
  secret ← item "secret" spec
  scopes ← item "scopes" spec
  scope_set ← frozenset scopes
  teams ← item "teams" spec
  team_set ← frozenset teams
  loaded (record {
    client_id = client_id;
    secret = str_of other secret;
    scopes = scope_set;
    teams = team_set;
  })

tool_of : String → Value → Load ToolPolicy
unfolding item as_text
tool_of name spec = do
  scope ← item "scope" spec
  action ← item "action" spec
  scope_text ← as_text scope
  action_text ← as_text action
  loaded (record { name = name; scope = scope_text; action = action_text })

entries {ℓ} : {A : Type ℓ} → (String → Value → Load A) → Fields → Load (List (String × A))
entries read end = loaded []
entries read (field k v fields) = do
  a ← read k v
  rest ← entries read fields
  loaded ((k, a) ∷ rest)

-- `{k: ... for k, v in d.items()}`
comprehended {ℓ} : {A : Type ℓ} → (String → Value → Load A) → Value → Load (List (String × A))
unfolding entries
comprehended read (object fields) = entries read fields
comprehended read _ = broken

checked : Bool → Load (Unit {0})
checked true = loaded tt
checked false = unsupported

unfoldable pub load_policy : (Value → String) → Value → Load Policy
unfolding version_one checked item comprehended client_of tool_of
load_policy other raw = do
  one ← version_one raw
  supported ← checked one
  clients ← item "clients" raw
  client_policies ← comprehended (client_of other) clients
  tools ← item "tools" raw
  tool_policies ← comprehended tool_of tools
  loaded (record { clients = client_policies; tools = tool_policies })
