-- ===== src/Transport.antt =====
-- internal/transport: the registry of known nodes, the carrier's connections, reliable broadcasts,
-- the framing of messages, the authentication handshake with the ways a peer comes to the carrier,
-- the bootstrap and the heartbeats.
pub mod Registry
pub mod Carrier
pub mod Broadcast
pub mod Wire
pub mod Replies
pub mod Handshake
pub mod Connect
pub mod Bootstrap
pub mod Heartbeat
