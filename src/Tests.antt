-- ===== src/Tests.antt =====
-- Tests of the definitions on concrete data, and each theorem at an input that meets its
-- hypotheses.
mod Users
mod Orgs
mod Groups
mod Services
mod Tokens
mod Sockets
mod Connections
mod Interleavings
mod Rest
mod Packets
mod Client
mod Runs
mod Streams
mod Races
