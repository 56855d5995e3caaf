-- ===== src/Auth/Types.antt =====
-- The types of src/mcpgate/auth.py, its failures, and Python's `or` on what may be None or empty.
use mcpgate.Prelude.{
  ℕ, String, Bool, false, not, Option, none, some, List, [], ◌∷◌, ◌==◌, ◌&&◌, if◌then◌else◌,
}
use mcpgate.Policy.{Policy, Denial}
use mcpgate.Crypto.{Crypto}

-- The part of config.py's `Settings` that the provider reads. Lifetimes are in seconds.
pub record Settings : Type 0 where
  pub issuer_url : String
  pub resource_url : String
  pub jwt_secret : String
  pub access_token_ttl : ℕ
  pub refresh_token_ttl : ℕ

-- The provider without its store, which is passed from call to call.
pub record Provider : Type 0 where
  pub crypto : Crypto
  pub policy : Policy
  pub settings : Settings

-- The codes of `AuthorizeError` and `TokenError`.
pub data AuthCode : Type 0 where
  invalid_scope invalid_request invalid_grant invalid_client : AuthCode

-- `denied_by` is a `PermissionError` of the policy, `bad_credentials` that of `issue_for_client`,
-- `key_error` a dict without the key that is read, `type_error` that of `compare_digest`.
pub data AuthFailure : Type 0 where
  authorize_error token_error : AuthCode → AuthFailure
  denied_by : Denial → AuthFailure
  bad_credentials registration_disabled key_error type_error : AuthFailure

pub data AuthResult {ℓ} (A : Type ℓ) : Type ℓ where
  ok : A → AuthResult A
  err : AuthFailure → AuthResult A

infixl 5 ◌>>=◌
abbrev pub ◌>>=◌ {ℓ κ} :
    {A : Type ℓ} {B : Type κ} → AuthResult A → (A → AuthResult B) → AuthResult B
err failure >>= next = err failure
ok value >>= next = next value

-- `d["key"]`
abbrev pub entry {ℓ} : {A : Type ℓ} → Option A → AuthResult A
entry none = err key_error
entry (some a) = ok a

-- A second, in the microseconds of the store's times.
abbrev pub second : ℕ
second = 1_000_000

-- `OAuthClientInformationFull`, as `get_client` fills it. `scope` has the scopes, parted by spaces.
pub record ClientInfo : Type 0 where
  pub client_id : String
  pub client_secret : String
  pub scope : String

-- The SDK's `AuthorizationParams`.
pub record Params : Type 0 where
  pub scopes : Option (List String)
  pub state : Option String
  pub code_challenge : String
  pub redirect_uri : String
  pub redirect_uri_provided_explicitly : Bool
  pub resource : Option String

-- `construct_redirect_uri(uri, code=code, state=state)`, by its parts.
pub record Redirect : Type 0 where
  pub uri : String
  pub code : String
  pub state : Option String

-- `xs or ys`, where `xs` may be None or empty.
abbrev pub or_scopes : Option (List String) → List String → List String
or_scopes none ys = ys
or_scopes (some []) ys = ys
or_scopes (some (x ∷ xs)) ys = x ∷ xs

-- `resource and resource != resource_url`
abbrev pub is_foreign : Option String → String → Bool
is_foreign none url = false
is_foreign (some r) url = not (r == "") && not (r == url)

-- `resource or resource_url`
abbrev pub or_resource : Option String → String → String
or_resource none url = url
or_resource (some r) url = if r == "" then url else r
