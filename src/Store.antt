-- ===== src/Store.antt =====
-- The tables of the database, one module each.
pub mod Tokens
pub mod Hosts
pub mod Identities
pub mod Commands
pub mod Configs
pub mod SecurityEvents
