-- ===== src/Result.antt =====
-- How a call ends: the refusals of gateway.py, auth.py and policy.py as values, and a fault for any
-- other exception. The exceptions' messages are not modelled, only their codes.
use mcpgate.Prelude.{ℕ, String, ◌≡◌, refl, ◌⊎◌, inl, inr, Bool, true, false, Option, none, arith}

-- The code of a `GatewayError`.
pub data Code : Type 0 where
  invalid_token rate_limited forbidden internal_error : Code
  unknown_tool unexpected_argument missing_argument : Code
  invalid_argument_type input_too_long control_character : Code
  invalid_input invalid_status row_scope_violation not_found : Code

-- `exc.code`, the text that an audit event keeps.
unfoldable pub code_text : Code → String
code_text Code.invalid_token = "invalid_token"
code_text Code.rate_limited = "rate_limited"
code_text Code.forbidden = "forbidden"
code_text Code.internal_error = "internal_error"
code_text Code.unknown_tool = "unknown_tool"
code_text Code.unexpected_argument = "unexpected_argument"
code_text Code.missing_argument = "missing_argument"
code_text Code.invalid_argument_type = "invalid_argument_type"
code_text Code.input_too_long = "input_too_long"
code_text Code.control_character = "control_character"
code_text Code.invalid_input = "invalid_input"
code_text Code.invalid_status = "invalid_status"
code_text Code.row_scope_violation = "row_scope_violation"
code_text Code.not_found = "not_found"

-- `retry_after` in microseconds, as the exact fraction `deficit / rate`.
pub record Wait : Type 0 where
  pub deficit : ℕ
  pub rate : ℕ

-- `refused` is a `GatewayError`, `fault` any other exception.
pub data Failure : Type 0 where
  refused : Code → Option Wait → Failure
  fault : Failure

pub data Result {ℓ} (A : Type ℓ) : Type ℓ where
  ok : A → Result A
  err : Failure → Result A

infixl 5 ◌>>=◌ ◌>>◌
abbrev pub ◌>>=◌ {ℓ κ} : {A : Type ℓ} {B : Type κ} → Result A → (A → Result B) → Result B
err failure >>= next = err failure
ok value >>= next = next value

abbrev pub ◌>>◌ {ℓ} : {B : Type ℓ} → Result (Unit {0}) → Result B → Result B
check >> rest = check >>= λ _. rest

-- `raise GatewayError(code)`
abbrev pub refuse {ℓ} : {A : Type ℓ} → Code → Result A
refuse c = err (refused c none)

-- `if test: raise GatewayError(code)`
abbrev pub refuse_if : Bool → Code → Result (Unit {0})
refuse_if true c = refuse c
refuse_if false c = ok tt

pub ok-injective {ℓ} : {A : Type ℓ} (a b : A) → ok a ≡ ok b → a ≡ b
ok-injective a b h = cc

-- A chain that succeeds, by its first step.
pub >>=-eq-ok {ℓ κ} :
    {A : Type ℓ} {B : Type κ} (first : Result A) (next : A → Result B) (b : B)
    → (first >>= next) ≡ ok b
    → (a : A) × (first ≡ ok a) × (next a ≡ ok b)
>>=-eq-ok (err failure) next b h = cc
>>=-eq-ok (ok value) next b h = (value, refl, h)

-- A chain that fails, by the step that fails.
pub >>=-eq-err {ℓ κ} :
    {A : Type ℓ} {B : Type κ} (m : Result A) (f : A → Result B) (e : Failure)
    → (m >>= f) ≡ err e
    → (m ≡ err e) ⊎ ((a : A) × (m ≡ ok a) × (f a ≡ err e))
>>=-eq-err (ok a) f e h = inr (a, refl, h)
>>=-eq-err (err d) f e h = inl (ground arith)
