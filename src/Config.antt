-- ===== src/Config.antt =====
-- src/mcpgate/config.py: the settings that a process reads from its environment. A path is the text that
-- it is made of.
pub mod Integers
pub mod Decimal
pub mod RoundTrip
use mathlib.Core.Option.{bind as ◌>>=◌}
use Prim.Native.String.{◌++◌ as text_append}
use mcpgate.Prelude.{ℕ, String, Option, none, some, ℤ}
use Integers.{int}

-- `os.environ.get`
abbrev pub Environ : Type 0
Environ = String → Option String

pub record Settings {ℓ} (F : Type ℓ) : Type ℓ where
  pub database_path : String
  pub policy_path : String
  pub issuer_url : String
  pub resource_url : String
  pub jwt_secret : String
  pub access_token_ttl : ℤ
  pub refresh_token_ttl : ℤ
  pub rate_capacity : ℤ
  pub rate_refill_per_second : F
  pub host : String
  pub port : ℤ

-- `os.environ.get(name, default)`
or_default : Option String → String → String
or_default none default = default
or_default (some s) default = s

pub get_or : Environ → String → String → String
unfolding or_default
get_or env name default = or_default (env name) default

-- `root` is the repository's directory, `digit` the Unicode table of decimal digits, `float` Python's
-- reading of a float; `none` is a ValueError of `int` or `float`.
unfoldable pub settings_in {ℓ} :
    {F : Type ℓ} → String → (ℕ → Option ℕ) → (String → Option F) → Environ → Option (Settings F)
unfolding get_or
settings_in root digit float env = do
  access_token_ttl ← int digit (get_or env "MCPGATE_ACCESS_TTL" "300")
  refresh_token_ttl ← int digit (get_or env "MCPGATE_REFRESH_TTL" "3600")
  rate_capacity ← int digit (get_or env "MCPGATE_RATE_CAPACITY" "20")
  rate_refill ← float (get_or env "MCPGATE_RATE_REFILL" "5")
  port ← int digit (get_or env "MCPGATE_PORT" "8000")
  some (record {
    database_path = get_or env "MCPGATE_DB" (text_append root "/data/mcpgate.sqlite3");
    policy_path = get_or env "MCPGATE_POLICY" (text_append root "/policy.yaml");
    issuer_url = get_or env "MCPGATE_ISSUER" "http://127.0.0.1:8000";
    resource_url = get_or env "MCPGATE_RESOURCE" "http://127.0.0.1:8000/mcp";
    jwt_secret = get_or env "MCPGATE_JWT_SECRET" "local-development-secret-change-before-deploy";
    access_token_ttl = access_token_ttl;
    refresh_token_ttl = refresh_token_ttl;
    rate_capacity = rate_capacity;
    rate_refill_per_second = rate_refill;
    host = get_or env "MCPGATE_HOST" "127.0.0.1";
    port = port;
  })
