-- ===== src/Tests.antt =====
-- Runs of the definitions on concrete inputs, and the theorems applied to them.
mod World
mod Trust
mod Handshake
mod Peering
mod Arrivals
mod Dispatch
mod Peers
mod Heartbeats
mod Files
mod Replies
mod Log
mod Startup
