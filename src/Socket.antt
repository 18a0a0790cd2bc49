-- ===== src/Socket.antt =====
-- src/rsb/transport/socket: the bus over TCP sockets.
pub mod Framing
pub mod Connection
pub mod Receiving
pub mod Bus
pub mod Sending
pub mod Factory
pub mod Sharing
pub mod Server
mod Examples
