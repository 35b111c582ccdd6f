-- ===== src/Tests.antt =====
-- The theorems that have hypotheses or arguments, each at a concrete input, and the data they share.
mod Data
mod Server
mod Common
mod Access
mod Agent
mod Process
mod System
mod ApiServer
mod Threads
mod Agents
mod Mirror
mod Analysis
