-- ===== src/Tests/Environ.antt =====
-- Settings read from small environments; a float is its text.
use mcpgate.Prelude.{
  ℕ, ◌+◌, ◌-◌, ◌<◌, String, ◌≡◌, ◌↔◌, refl, ◌==◌, true, [], ◌∷◌, contains, Option, none, some, pos,
  negsuc, leb, ◌&&◌, if◌then◌else◌, arith,
}
use mcpgate.Gateway.Validate.{is_space}
use mcpgate.Policy.{granted, authorize_scopes}
use mcpgate.Policy.Order.{IsSorted, sorted_set, text_lt}
use mcpgate.Server.Options.{server_options, valid_scopes}
use mcpgate.Server.Options.Announced.{IsDict, valid_scopes_iff}
use mcpgate.Tests.World.{gateway}
use mcpgate.Config.{Settings, settings_in}
use mcpgate.Config.Integers.{int, read_code, add_digit, number_of, negated}
use mcpgate.Config.Decimal.{length-decimals_of, length-decimals_of_negsuc}
use mcpgate.Config.RoundTrip.{environ_of, settings_in-environ_of}

abbrev ascii_digit : ℕ → Option ℕ
ascii_digit c = if leb 48 c && leb c 57 then some (c - 48) else none

ascii : (d : ℕ) → d < 10 → ascii_digit (48 + d) ≡ some d
ascii d h = ground (arith, h)

int_runs :
    (int ascii_digit " +1_000\n" ≡ some (pos 1_000))
    × (int ascii_digit "-07" ≡ some (negsuc 6))
    × (int ascii_digit "1__0" ≡ none)
    × (int ascii_digit "1 0" ≡ none)
    × (int ascii_digit "" ≡ none)
unfolding int read_code add_digit number_of negated is_space
int_runs = (refl, refl, refl, refl, refl)

abbrev defaults : Settings String
defaults = record {
  database_path = "/srv/data/mcpgate.sqlite3";
  policy_path = "/srv/policy.yaml";
  issuer_url = "http://127.0.0.1:8000";
  resource_url = "http://127.0.0.1:8000/mcp";
  jwt_secret = "local-development-secret-change-before-deploy";
  access_token_ttl = pos 300;
  refresh_token_ttl = pos 3_600;
  rate_capacity = pos 20;
  rate_refill_per_second = "5";
  host = "127.0.0.1";
  port = pos 8_000;
}

-- Where no variable is set.
settings_in_runs : settings_in "/srv" ascii_digit some (λ name. none) ≡ some defaults
unfolding settings_in int read_code add_digit number_of negated is_space mathlib.Core.Option.bind
settings_in_runs = refl

abbrev deployed : Settings String
deployed = record defaults {
  jwt_secret = "secret";
  access_token_ttl = pos 90;
  refresh_token_ttl = negsuc 4;
  port = pos 80;
}

settings_in-environ_of_example :
    settings_in "/srv" ascii_digit some (environ_of (λ f. f) deployed) ≡ some deployed
settings_in-environ_of_example =
    settings_in-environ_of "/srv" ascii_digit some (λ f. f) deployed ascii refl
      (omega (arith, length-decimals_of 90)) (omega (arith, length-decimals_of_negsuc 4))
      (omega (arith, length-decimals_of 20)) (omega (arith, length-decimals_of 80))

-- The small deployment's clients.
clients_IsDict : IsDict gateway.policy.clients
unfolding ◌==◌
clients_IsDict = (refl, (refl, tt))

valid_scopes_example :
    IsSorted (server_options deployed gateway).auth.client_registration_options.scopes
    × ((contains
            (server_options deployed gateway).auth.client_registration_options.scopes
            "tickets:write"
          ≡ true)
        ↔ ((client_id : String) × (authorize_scopes gateway.policy client_id ("tickets:write" ∷ [])
              ≡ granted ("tickets:write" ∷ []))))
valid_scopes_example = valid_scopes_iff deployed gateway "tickets:write" clients_IsDict

valid_scopes_runs :
    (server_options deployed gateway).auth.client_registration_options.scopes
    ≡ "tickets:read" ∷ "tickets:write" ∷ []
unfolding server_options valid_scopes sorted_set text_lt ◌==◌
valid_scopes_runs = refl
