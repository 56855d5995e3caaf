-- ===== src/Gateway/Clean.antt =====
-- src/mcpgate/gateway.py: the dict of checked arguments that `_validate_inputs` returns.
use mcpgate.Prelude.{String, Option, none, some, List, [], ◌∷◌, ℤ, lookup}
use mcpgate.Result.{Result, ok, err, fault}

-- A value of the dict `clean`: None, an integer or a text.
pub data Arg : Type 0 where
  nothing : Arg
  whole : ℤ → Arg
  words : String → Arg

abbrev pub Clean : Type 0
Clean = List (String × Arg)

abbrev pub keys {ℓ} : {V : Type ℓ} → List (String × V) → List String
keys [] = []
keys ((k, v) ∷ d) = k ∷ keys d

-- `clean[name]` where a text, an integer, or one of them or None is read. A missing key is a KeyError;
-- another shape would be a fault of a later operation, and is one here.
abbrev as_words : Option Arg → Result String
as_words (some (words s)) = ok s
as_words _ = err fault

abbrev as_whole : Option Arg → Result ℤ
as_whole (some (whole n)) = ok n
as_whole _ = err fault

abbrev as_optional_words : Option Arg → Result (Option String)
as_optional_words (some (words s)) = ok (some s)
as_optional_words (some nothing) = ok none
as_optional_words _ = err fault

abbrev as_optional_whole : Option Arg → Result (Option ℤ)
as_optional_whole (some (whole n)) = ok (some n)
as_optional_whole (some nothing) = ok none
as_optional_whole _ = err fault

abbrev pub get_words : String → Clean → Result String
get_words name clean = as_words (lookup name clean)

abbrev pub get_whole : String → Clean → Result ℤ
get_whole name clean = as_whole (lookup name clean)

abbrev pub get_optional_words : String → Clean → Result (Option String)
get_optional_words name clean = as_optional_words (lookup name clean)

abbrev pub get_optional_whole : String → Clean → Result (Option ℤ)
get_optional_whole name clean = as_optional_whole (lookup name clean)
