-- ===== src/Peers.antt =====
-- The connected peers of a daemon: trunk/daemon/client.c and daemon.c.
mod Examples
pub mod Links
pub mod Send
