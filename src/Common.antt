-- ===== src/Common.antt =====
-- drop/common: what the server and the agent share.
pub mod Log
pub mod Effect
pub mod Perf
pub mod CosClient
pub mod Daemon
pub mod Scanf
pub mod Process
