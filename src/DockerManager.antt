-- ===== src/DockerManager.antt =====
-- src/docker.rs: containers.
pub mod Client
pub mod Connect
pub mod Memory
pub mod Pull
pub mod Container
pub mod Ending
pub mod Logs
pub mod Units
pub mod Names
pub mod Checks
