-- ===== src/Proxy.antt =====
-- src/proxy.rs: the reverse proxy.
pub mod Http
pub mod Hostname
pub mod Hostnames
pub mod Ready
pub mod Parse
pub mod Upgrade
pub mod Waiting
pub mod Request
pub mod Forwarding
pub mod Upgrading
pub mod Refusals
pub mod Headers
pub mod ColdStart
pub mod Polled
pub mod Counting
pub mod Leaking
