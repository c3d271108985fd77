-- ===== src/Store.antt =====
-- The database behind the services: tables, sessions with their commits, and actions on them.
pub mod Table
pub mod Exec
pub mod Keeps
pub mod Triple
pub mod Inversion
pub mod Fresh
pub mod Listed
