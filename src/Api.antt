-- ===== src/Api.antt =====
-- The REST front end (internal/api).
pub mod Numbers
pub mod Http
pub mod Users
pub mod Orgs
pub mod Groups
pub mod Middleware
pub mod Router
pub mod Session
