-- ===== src/Tests.antt =====
-- Concrete inputs on which the statements of the library are applied, with the code run on them.
pub mod Floats
pub mod Data
mod Dedup
mod Reasoning
mod Basics
mod Targeting
mod Changes
mod Triage
