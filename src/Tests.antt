-- ===== src/Tests.antt =====
-- The theorems applied to concrete data, and runs of the definitions.
mod World
mod Guards
mod Tables
mod Tokens
mod Log
mod Rules
mod Runs
mod Server
mod Views
mod Flow
mod Rebuilt
mod Laps
mod Web
mod OauthFlow
mod Cli
mod Environ
