-- ===== src/Handler.antt =====
-- trunk/daemon/client_handler.c and daemon_handler.c: which request a line starts, how many peers and
-- requests run at a time, and how a daemon that connects identifies itself.
pub mod Admission
pub mod Dispatch
pub mod Clients
pub mod Daemons
pub mod Identify
mod Examples
