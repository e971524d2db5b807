-- ===== src/Examples.antt =====
-- The theorems at concrete inputs, and the inputs.
pub mod Data
mod Routes
mod Attempts
mod Configs
mod Cores
mod Roots
mod Steps
mod Routings
