-- ===== src/Uds.antt =====
-- The Unix-domain-socket front end (internal/uds).
pub mod Codec
pub mod Reader
pub mod Handshake
pub mod Payloads
pub mod Codecs
pub mod Handlers
pub mod Registry
pub mod Server
