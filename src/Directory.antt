-- ===== src/Directory.antt =====
-- The organisation and group stores in memory (internal/directory/memory_store.go).
pub mod Membership
pub mod OrgStore
pub mod GroupStore
