-- ===== src/Crypto.antt =====
-- What the program calls and does not implement: hashlib, hmac and PyJWT, as functions that the
-- definitions take. Nothing is assumed of them here; a theorem that needs a law of one names it.
use mcpgate.Prelude.{ℕ, String, Option, List}
use mcpgate.Value.{Json, Message}

-- The claims of an access token (auth.py, `_issue_pair`). The first six are those that `jwt.decode` is
-- told to require; the other three may be missing from a token that this program did not issue.
-- Times are in seconds, as in the token.
pub record Claims : Type 0 where
  pub iss : String
  pub aud : String
  pub sub : String
  pub iat : ℕ
  pub exp : ℕ
  pub jti : String
  pub client_id : Option String
  pub scopes : Option (List String)
  pub teams : Option (List String)

pub record Crypto : Type 0 where
  -- `hashlib.sha256(value.encode()).hexdigest()`, of a text and of a text printed by `json.dumps`.
  pub sha256 : String → String
  pub sha256_json : Json → String
  -- `hmac.new(key, canonical.encode(), hashlib.sha256).hexdigest()`
  pub hmac_sha256 : String → Message → String
  -- `jwt.encode(claims, secret, algorithm="HS256")`
  pub jwt_encode : Claims → String → String
  -- `jwt.decode(token, secret, algorithms=["HS256"], audience=…, issuer=…, options=…)` at a time in
  -- microseconds; `none` is a `PyJWTError`.
  pub jwt_decode : String → String → String → String → ℕ → Option Claims
