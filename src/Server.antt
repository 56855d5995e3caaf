-- ===== src/Server.antt =====
-- src/mcpgate/server.py: the tools that the server offers, and the audit of the calls that the SDK
-- rejects. The SDK itself (FastMCP) is a parameter, the record Sdk.
pub mod Errors
pub mod Tools
pub mod Options
pub mod Calls
