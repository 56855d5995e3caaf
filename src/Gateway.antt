-- ===== src/Gateway.antt =====
-- src/mcpgate/gateway.py: the guard pipeline of a tool call, in the order of its steps: the arguments'
-- validation, the dispatch to the store behind the row filter, and `invoke`, which joins them to
-- authentication, rate limit, policy and audit.
pub mod Clean
pub mod Validate
pub mod Dispatch
pub mod Pipeline
