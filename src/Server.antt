-- ===== src/Server.antt =====
-- drop/server: the drop server, one module for each of its services and one for the whole.
pub mod Reply
pub mod Apiserver
pub mod Hotmethod
pub mod Control
pub mod HealthCheck
pub mod Init
pub mod ScanThread
pub mod DropServer
