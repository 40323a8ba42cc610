-- ===== src/Requests.antt =====
-- The functions that answer the requests of clients and of daemons: trunk/daemon/client_requests and
-- trunk/daemon/daemon_requests.
pub mod Connect
pub mod Console
pub mod Neighbours
pub mod Raw
pub mod Ready
pub mod Receive
pub mod Files
pub mod Listing
pub mod Serve
pub mod Search
