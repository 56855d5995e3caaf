-- ===== src/Auth.antt =====
-- src/mcpgate/auth.py: the OAuth provider, method by method. What the SDK checks around it (client
-- authentication, PKCE, redirect URIs) is not part of it. A method is an action on the database; the
-- tokens and the times that it draws are arguments.
pub mod Words
pub mod Types
pub mod Authorize
pub mod Issue
pub mod Exchange
pub mod Access
pub mod Flow
