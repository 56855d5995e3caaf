-- ===== src/Lib.antt =====
-- The MCP gateway of src/mcpgate: OAuth tokens, a policy of scopes and teams, rate limits, checked
-- arguments, row filters, and an audit log chained by HMAC.
--
-- The parts, and the module that models each:
--
--   src/mcpgate/policy.py      Policy: `client`, `authorize_scopes`, `require_tool`; Policy/Loading:
--                              `__init__`, from what `yaml.safe_load` returns.
--   src/mcpgate/rate_limit.py  RateLimit: `allow` on the buckets of all identities.
--   src/mcpgate/store.py       Store: the three tables; Store/Tickets, Store/Artifacts, Store/Events have
--                              one function for each method.
--   src/mcpgate/audit.py       Audit: `record` (record_event), `verify_chain`, `reconstruct`, `_safe_args`.
--   src/mcpgate/auth.py        Auth: Types, Words (`split` and `join` of scopes), Authorize, Issue (`_issue_pair`,
--                              `issue_for_client`), Exchange, Access.
--   src/mcpgate/gateway.py     Gateway: Clean and Validate (`_validate_inputs`), Dispatch (`_dispatch`,
--                              `_visible_ticket`, `direct`), Pipeline (`invoke`).
--   src/mcpgate/config.py      Config: the settings that an environment gives; Config/Integers is Python's `int`.
--   src/mcpgate/runtime.py     Runtime: `create_runtime`.
--   src/mcpgate/server.py      Server: Errors (`_already_audited`), Tools (the tools and their `invoke`),
--                              Options (what `create_server` tells the SDK), Calls (`audited_call_tool`, `_current_request_id`).
--   src/mcpgate/cli.py         Cli: the commands, each a process of its own.
--   src/mcpgate/benchmark.py   Benchmark: `percentile`, `run_benchmark` with its report.
--   demos/audit_reconstruction.py  Demo: `main`.
--   demos/oauth_flow.py        OauthDemo: `main`; OauthDemo/Web is what it relies on in the SDK.
--   policy.yaml                Policy/Shipped.
--
-- Beside them Prelude holds what all share, Result how a call ends, Value the values of JSON, Crypto what
-- the program calls and does not implement. The children of a module hold its theorems; Tests applies
-- theorems and runs definitions on a small deployment.
--
-- How the parts interact: `invoke` authenticates by `load_access_token`, which reads the artifacts' table
-- and the JWT library; it then asks the limiter, the policy and the validation, in this order, dispatches
-- to the store, and records one event. Above it the server's handler records the calls that never reach
-- `invoke`, and finds out by the chain of the exception which ones those are. State is passed explicitly:
-- the database and the buckets (State). Every method of the store runs under its lock and is one step;
-- `record` reads the last hash and appends under two holds of the lock, and is taken as one step, as it
-- is in the one event loop that runs `invoke`; Audit/Overlap has the two steps apart. What a call reads
-- from outside (clocks, random draws, latency) are arguments.
--
-- Conventions and bounds:
--   - Times are natural numbers of microseconds, lifetimes of tokens seconds. The limiter's floats are
--     exact numbers in units of 10 ^ -12 token, its rate a whole number of millionths of a token per second:
--     rounding is not modelled. `-` on natural numbers stops at 0, where the source has `max(0.0, ...)`.
--   - An id is an integer, as Python has it; one that SQLite cannot bind is a fault (an OverflowError), and
--     a table that has used its largest key takes no new row.
--   - A dict is an association list, a set a list of which only membership is used. The fields of a JSON
--     object are held in an order, since `json.dumps` sorts them. A printed JSON text stands for its value.
--   - A float in JSON is a multiple of 10 ^ -6. Texts have no lone surrogates. The HMAC texts of
--     the log are ASCII, also those of a row that was tampered with; `hmac.compare_digest` raises on others.
--   - The loops are structural recursion on the lists that they walk. Only the walk over a chain of
--     exceptions, which may be a cycle, runs on fuel: the number of the exception objects and two, which
--     is enough because each turn but the last two sees an object for the first time. `verify_chain` reads
--     a million events and `reconstruct` 10,000, as in the source.
--   - What the MCP SDK does with a call is a record of functions (Sdk), with what the server relies on
--     as a record of laws (IsRewrapping): its own rejections hold no AuditedToolError, its exception for
--     one of a tool's function has that one in its chain, and a call goes to the function of its name.
--   - The SDK's web application is a function from the requests of the OAuth demo, with a record of laws
--     (IsSdk): it serves the discovery documents, refuses a call without a token, authenticates clients,
--     checks PKCE, and calls the provider and the server's handler.
--   - Python's `round`, its reading of a float and its table of decimal digits are parameters; the
--     medians of the benchmark's report are kept doubled.
--   - hashlib, hmac and PyJWT are a record of functions (Crypto), of which nothing is assumed but what a
--     theorem names: that a token decodes to the claims that it encodes, that two tokens have different
--     digests.
--
-- Not modelled: the server object that the SDK makes, what typer parses, what `Policy.__init__` makes of
-- a scope, a team or an action that is no text, what the benchmark and the demos print, the messages of
-- exceptions, a failure of the database itself, and an exception raised by the audit record.
pub mod Prelude
pub mod Result
pub mod Policy
pub mod RateLimit
pub mod Value
pub mod Crypto
pub mod Store
pub mod Audit
pub mod Auth
pub mod Gateway
pub mod Runtime
pub mod Server
pub mod Benchmark
pub mod Demo
pub mod OauthDemo
pub mod Config
pub mod Cli
pub mod Tests
