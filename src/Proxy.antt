-- ===== src/Proxy.antt =====
-- src/proxy.rs.
pub mod Spy
pub mod Cause
pub mod Client
pub mod Clients
pub mod Snapshot
pub mod Receive
pub mod Ping
pub mod Bind
