-- ===== src/Tests.antt =====
-- The theorems at concrete inputs, in a world whose answers are given by functions.
pub mod World
mod Data
mod Scripts
mod Oracles
mod Tasks
mod Added
mod Registry
mod Registrations
