-- ===== src/Process.antt =====
-- src/process.rs: the process manager.
pub mod State
pub mod Ops
pub mod Steps
pub mod Settings
pub mod Invariant
pub mod Lifecycle
pub mod Counters
pub mod InFlight
pub mod Launch
pub mod Start
pub mod Starting
pub mod Stop
pub mod Draining
pub mod Cleanup
pub mod Cleaning
pub mod Abstract
pub mod Startup
pub mod Containers
pub mod Idle
pub mod Health
pub mod Serving
pub mod Monitoring
pub mod Probing
pub mod Reload
pub mod Reloading
