-- ===== src/Main.antt =====
-- src/main.rs: the program.
pub mod Tls
pub mod Servers
pub mod Signals
pub mod Wiring
pub mod Shutdown
pub mod Exit
pub mod Connections
pub mod Challenges
