-- ===== src/Agent.antt =====
-- drop/agent: the agent, its two threads and its start.
pub mod Config
pub mod HealthCheckChannel
pub mod HotmethodChannel
pub mod Worker
pub mod Main
