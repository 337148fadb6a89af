-- ===== src/System.antt =====
-- The whole service: the stores that its three front ends share (cmd/main.go), and what a request to
-- one of them does to the stores.
pub mod Moves
pub mod Handlers
pub mod Requests
pub mod Sockets
pub mod Runs
