-- ===== src/ApiServer.antt =====
-- apiserver/server: the handlers and background routines that decide what becomes of a task.
pub mod Tasks
pub mod Agents
pub mod Table
pub mod Watcher
pub mod Access
