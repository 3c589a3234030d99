-- ===== src/Acme.antt =====
-- src/acme.rs: certificates from an ACME server.
pub mod Library
pub mod Action
pub mod Challenges
pub mod Certificate
pub mod Order
pub mod Manager
pub mod Kept
pub mod Serving
pub mod Agreement
pub mod Renewal
pub mod Cleanup
pub mod Halting
pub mod Termination
pub mod Endless
pub mod Answers
pub mod Validity
