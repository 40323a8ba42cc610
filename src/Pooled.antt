-- ===== src/Pooled.antt =====
-- branches/block_by_block/daemon, where a pool of threads works off the requests of all peers, and a
-- file is downloaded by blocks.
pub mod Dispatch
pub mod Server
pub mod Sessions
pub mod Blocks
pub mod Seeders
pub mod Conf
pub mod Bind
