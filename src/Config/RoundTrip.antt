-- ===== src/Config/RoundTrip.antt =====
-- Settings survive the environment that they are written in.
use mcpgate.Prelude.{
  ℕ, ◌+◌, ◌<◌, ◌≤◌, String, ◌≡◌, refl, Option, none, some, ℤ, length, ◌==◌, if◌then◌else◌,
}
use mcpgate.Config.{Environ, Settings, settings_in}
use mcpgate.Config.Integers.{max_digits}
use mcpgate.Config.Decimal.{written, decimals_of, int-written}

-- The environment that says these settings, a float as `show` writes it.
pub environ_of {ℓ} : {F : Type ℓ} → (F → String) → Settings F → Environ
environ_of show s name =
    if name == "MCPGATE_DB"
    then some s.database_path
    else if name == "MCPGATE_POLICY"
    then some s.policy_path
    else if name == "MCPGATE_ISSUER"
    then some s.issuer_url
    else if name == "MCPGATE_RESOURCE"
    then some s.resource_url
    else if name == "MCPGATE_JWT_SECRET"
    then some s.jwt_secret
    else if name == "MCPGATE_ACCESS_TTL"
    then some (written s.access_token_ttl)
    else if name == "MCPGATE_REFRESH_TTL"
    then some (written s.refresh_token_ttl)
    else if name == "MCPGATE_RATE_CAPACITY"
    then some (written s.rate_capacity)
    else if name == "MCPGATE_RATE_REFILL"
    then some (show s.rate_refill_per_second)
    else if name == "MCPGATE_HOST"
    then some s.host
    else if name == "MCPGATE_PORT"
    then some (written s.port)
    else none

-- `int` can read it: it has at most 4,300 digits.
abbrev pub IsShort : ℤ → Type 0
IsShort k = length (decimals_of k) ≤ max_digits

-- Settings survive the environment: from the environment that has all variables as the settings' texts
-- the same settings are read, if their integers have at most 4,300 digits, the table of digits knows the
-- ASCII ones, and `float` reads the text of the rate.
pub settings_in-environ_of {ℓ} :
    {F : Type ℓ} (root : String) (digit : ℕ → Option ℕ) (float : String → Option F)
    (show : F → String) (s : Settings F)
    → ((d : ℕ) → d < 10 → digit (48 + d) ≡ some d)
    → float (show s.rate_refill_per_second) ≡ some s.rate_refill_per_second
    → IsShort s.access_token_ttl
    → IsShort s.refresh_token_ttl
    → IsShort s.rate_capacity
    → IsShort s.port
    → settings_in root digit float (environ_of show s) ≡ some s
unfolding settings_in environ_of ◌==◌ mathlib.Core.Option.bind
settings_in-environ_of root digit float show s ascii shown access refresh capacity port =
    rw
      (
        int-written digit s.access_token_ttl ascii access,
        int-written digit s.refresh_token_ttl ascii refresh,
        int-written digit s.rate_capacity ascii capacity,
        shown,
        int-written digit s.port ascii port,
      )
      refl
