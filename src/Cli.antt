-- ===== src/Cli.antt =====
-- src/mcpgate/cli.py: the commands. Each starts a process of its own: a new runtime on the database that
-- is there, with empty buckets. What typer parses is given; a printed JSON text is its value.
pub mod Issued
pub mod Audited
use mcpgate.Prelude.{ℕ, String, Bool, Option, none, some, List, ◌==◌, if◌then◌else◌}
use mcpgate.Crypto.{Crypto}
use mcpgate.Policy.{Policy}
use mcpgate.Store.{Db}
use mcpgate.Audit.{Step, reconstruct, verify_chain}
use mcpgate.Auth.Types.{Settings, AuthResult}
use mcpgate.Auth.Issue.{Draw, OauthToken, issue_for_client}
use mcpgate.Gateway.Pipeline.{Gateway, State}
use mcpgate.Runtime.{create_runtime}
use mcpgate.Auth.Words.{split}

-- What `create_runtime()` reads beside the database: the settings, the policy's file, the clock.
pub record Process : Type 0 where
  pub crypto : Crypto
  pub policy : Policy
  pub settings : Settings
  pub rate_capacity : ℕ
  pub rate_refill : ℕ
  pub now : ℕ

abbrev pub start : Process → Db → Option (Gateway × State)
start p db = create_runtime p.crypto p.policy p.settings p.rate_capacity p.rate_refill p.now db

-- How `serve` ends: the server runs on a transport, or a BadParameter. `none` is another exception.
pub data Serving : Type 0 where
  streamable_http stdio : Gateway → State → Serving
  bad_parameter : Serving

serving : String → Option (Gateway × State) → Option Serving
serving transport none = none
serving transport (some (g, s)) = some (
    if transport == "streamable-http"
    then streamable_http g s
    else if transport == "stdio"
    then stdio g s
    else bad_parameter)

unfoldable pub serve : Process → String → Db → Option Serving
unfolding serving
serve p transport db = serving transport (start p db)

-- `scopes.split() if scopes else None`
abbrev pub wanted : String → Option (List String)
wanted scopes = if scopes == "" then none else some (split scopes)

printed : AuthResult OauthToken × Db → Option (OauthToken × Db)
printed (AuthResult.err e, db) = none
printed (AuthResult.ok pair, db) = some (pair, db)

issued_in : String → String → String → Draw → Option (Gateway × State) → Option (OauthToken × Db)
unfolding printed
issued_in client_id client_secret scopes d none = none
issued_in client_id client_secret scopes d (some (g, s)) =
    printed (issue_for_client g.provider client_id client_secret (wanted scopes) d s.db)

-- The pair that is printed, and the database that is left; `none` is an exception.
unfoldable pub issue_token :
    Process → String → String → String → Draw → Db → Option (OauthToken × Db)
unfolding issued_in
issue_token p client_id client_secret scopes d db =
    issued_in client_id client_secret scopes d (start p db)

-- What `audit` prints: the session's steps and, with `verify`, whether the chain is valid.
pub record Printed : Type 0 where
  pub steps : List Step
  pub chain_valid : Option Bool

audited_in : String → Bool → Option (Gateway × State) → Option Printed
audited_in session_id verify none = none
audited_in session_id verify (some (g, s)) = some (record {
  steps = reconstruct session_id s.db;
  chain_valid = if verify then some (verify_chain g.provider.crypto g.audit_key s.db) else none;
})

unfoldable pub audit : Process → String → Bool → Db → Option Printed
unfolding audited_in
audit p session_id verify db = audited_in session_id verify (start p db)
