-- ===== src/Scenarios.antt =====
-- Tests: a small model, the platform it runs on, and each theorem at a concrete input.
pub mod Sample
pub mod Arithmetic
pub mod Models
pub mod Graphs
pub mod Building
pub mod Requests
mod Sequences
pub mod Sessions
pub mod Devices
