-- ===== src/Value.antt =====
-- The values of Python that tool arguments are made of, and the texts that `json.dumps` prints.
use mcpgate.Prelude.{ℕ, String, Bool, List, [], ◌∷◌, ℤ, String-discrete}
use native.Mathlib.Decide.{ℕ_discrete}

-- What JSON can carry. A float is a multiple of 10 ^ -6; of one that a caller sends the program sees
-- only that it is a float. The fields of a dict are held in the order of their keys, since nothing
-- that the program does depends on the order of insertion.
mutual
  pub data Value : Type 0 where
    null : Value
    boolean : Bool → Value
    integer : ℤ → Value
    floating : ℤ → Value
    text : String → Value
    array : Items → Value
    object : Fields → Value

  pub data Items : Type 0 where
    nil : Items
    cons : Value → Items → Items

  pub data Fields : Type 0 where
    end : Fields
    field : String → Value → Fields → Fields

-- A text that `json.dumps` prints with `sort_keys=True`: `compact` with `separators=(",", ":")`, `spaced`
-- with the default ones. It stands for the characters, which `json.loads` reads back.
pub data Json : Type 0 where
  compact : Value → Json
  spaced : Value → Json

-- `json.loads`
unfoldable pub loads : Json → Value
loads (compact v) = v
loads (spaced v) = v

-- A column of an audit event: NULL, a text, a number, a text that `json.dumps` printed.
pub data Cell : Type 0 where
  absent : Cell
  written : String → Cell
  number : ℕ → Cell
  printed : Json → Cell

-- The compact text that `json.dumps` prints of a dict of columns.
abbrev pub Message : Type 0
Message = List (String × Cell)

pub Message-discrete : Discrete Message
Message-discrete = hlevel (ℕ_discrete, String-discrete)

-- A dict of arguments.
abbrev pub Args : Type 0
Args = List (String × Value)

unfoldable pub of_args : Args → Fields
of_args [] = end
of_args ((k, v) ∷ args) = field k v (of_args args)
