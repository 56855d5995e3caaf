-- ===== src/Gateway/Validate/Shapes.antt =====
-- What passes validation, and how validation fails.
use Prim.Native.String.{count}
use mcpgate.Prelude.{
  String, ◌≡◌, ◌⊎◌, inl, inr, refl, subst, Bool, true, false, ◌&&◌, not, Option, none, some, [],
  ◌∷◌, leb, is_subset, lookup, arith,
}
use mcpgate.Result.{Code, ok, refuse_if, ok-injective, >>=-eq-ok}
use mcpgate.Value.{Value, Args}
use mcpgate.Gateway.Clean.{Arg, nothing, whole, words, Clean, keys}
use mcpgate.Gateway.Validate.{
  ArgKind, is_optional, is_integer, Declared, argument_types, has_control, coerce_integer,
  coerce_str, coerce_text, missing, present, coerce_arg, coerce_args, check_ticket, check_status,
  check_id, check_values, validate_declared, validate_inputs,
}

-- What a kind admits: None where it is optional; an integer; a text of at most 4,000 characters
-- without control characters.
abbrev pub fits : ArgKind → Arg → Bool
fits kind nothing = is_optional kind
fits kind (whole n) = is_integer kind
fits kind (words s) = not (is_integer kind) && (leb (count s) 4_000 && not (has_control s))

-- The checked argument is the caller's value itself, never one made from it.
abbrev pub Stands : Option Value → Arg → Type 0
Stands v nothing = (v ≡ none) ⊎ (v ≡ some Value.null)
Stands v (whole n) = v ≡ some (Value.integer n)
Stands v (words s) = v ≡ some (Value.text s)

-- The checked dict holds the declared names in their order, each with a value of its kind that is the
-- caller's.
abbrev pub Matches : Args → Declared → Clean → Type 0
Matches args [] [] = Unit
Matches args [] (c ∷ clean) = ⊥
Matches args (d ∷ declared) [] = ⊥
Matches args ((name, kind) ∷ declared) ((k, a) ∷ clean) =
    (k ≡ name) × (fits kind a ≡ true) × Stands (lookup name args) a × Matches args declared clean

coerce_str_lem :
    (s : String) (a : Arg)
    → coerce_str s ≡ ok a
    → (a ≡ words s) × (leb (count s) 4_000 ≡ true) × (has_control s ≡ false)
unfolding coerce_str
coerce_str_lem s a h = ground arith

missing_lem :
    (kind : ArgKind) (a : Arg) → missing kind ≡ ok a → (a ≡ nothing) × (is_optional kind ≡ true)
unfolding missing
missing_lem kind a h = ground arith

coerce_arg_lem :
    (kind : ArgKind) (v : Option Value) (a : Arg)
    → coerce_arg kind v ≡ ok a
    → (fits kind a ≡ true) × Stands v a
unfolding coerce_arg present coerce_integer coerce_text missing
coerce_arg_lem kind none nothing h = (ground arith, inl refl)
coerce_arg_lem kind (some Value.null) nothing h = (ground arith, inr refl)
coerce_arg_lem kind (some (Value.text s)) (words t) h = ground (arith, coerce_str_lem s (words t))
coerce_arg_lem kind (some (Value.text s)) a h = ground (arith, coerce_str_lem s a)
coerce_arg_lem kind v a h = ground arith

pub coerce_args-Matches :
    (declared : Declared) (args : Args) (clean : Clean)
    → coerce_args declared args ≡ ok clean
    → Matches args declared clean
unfolding coerce_args
coerce_args-Matches [] args [] h = tt
coerce_args-Matches [] args (c ∷ clean) h = cc
coerce_args-Matches ((name, kind) ∷ declared) args clean h =
    let (a, first_ok, rest_ok) = >>=-eq-ok (coerce_arg kind (lookup name args)) _ clean h in
    let (l, tail_ok, whole_ok) = >>=-eq-ok (coerce_args declared args) _ clean rest_ok in
    let (fit, stands) = coerce_arg_lem kind (lookup name args) a first_ok in
    subst (Matches args ((name, kind) ∷ declared)) (ok-injective ((name, a) ∷ l) clean whole_ok)
      (refl, fit, stands, coerce_args-Matches declared args l tail_ok)

-- The checks after the loop hand on the dict as it is.
check_values_lem :
    (tool : String) (clean result : Clean) → check_values tool clean ≡ ok result → clean ≡ result
unfolding check_values check_ticket check_status check_id
check_values_lem tool clean result h = ground arith

refuse_if_passed :
    (b : Bool) (code : Code) (u : Unit {0}) → refuse_if (not b) code ≡ ok u → b ≡ true
refuse_if_passed true code u h = refl
refuse_if_passed false code u h = cc

-- Arguments that pass validation belong to one of the five tools, have only names that it declares, and
-- come out as its declared names in order, each with a value of its kind that is the caller's own: no
-- value is ever converted.
pub validate_inputs-Matches :
    (tool : String) (args : Args) (clean : Clean)
    → validate_inputs tool args ≡ ok clean
    → (declared : Declared) × (lookup tool argument_types ≡ some declared)
      × (is_subset (keys args) (keys declared) ≡ true)
      × Matches args declared clean
unfolding validate_inputs
validate_inputs-Matches tool args clean h = go (lookup tool argument_types) refl h
  where
    go :
        (o : Option Declared)
        → lookup tool argument_types ≡ o
        → validate_declared tool args o ≡ ok clean
        → (declared : Declared) × (lookup tool argument_types ≡ some declared)
          × (is_subset (keys args) (keys declared) ≡ true)
          × Matches args declared clean
    go none e h = cc
    go (some declared) e h =
        let (u, known, rest) =
          >>=-eq-ok
            (refuse_if (not (is_subset (keys args) (keys declared))) Code.unexpected_argument) _
            clean h in
        let (c, coerced, checked) = >>=-eq-ok (coerce_args declared args) _ clean rest in
        (
          declared,
          e,
          refuse_if_passed (is_subset (keys args) (keys declared)) Code.unexpected_argument u known,
          subst (Matches args declared) (check_values_lem tool c clean checked)
              (coerce_args-Matches declared args c coerced),
        )

-- Validated arguments pass the checks that follow the loop.
pub validate_inputs_checked :
    (tool : String) (args : Args) (clean : Clean)
    → validate_inputs tool args ≡ ok clean
    → check_values tool clean ≡ ok clean
unfolding validate_inputs
validate_inputs_checked tool args clean h = go (lookup tool argument_types) h
  where
    go :
        (o : Option Declared)
        → validate_declared tool args o ≡ ok clean
        → check_values tool clean ≡ ok clean
    go none h = cc
    go (some declared) h =
        let (u, known, rest) =
          >>=-eq-ok
            (refuse_if (not (is_subset (keys args) (keys declared))) Code.unexpected_argument) _
            clean h in
        let (c, coerced, checked) = >>=-eq-ok (coerce_args declared args) _ clean rest in
        subst (λ (x : Clean). check_values tool x ≡ ok clean)
          (check_values_lem tool c clean checked) checked
