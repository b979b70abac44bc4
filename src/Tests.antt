-- ===== src/Tests.antt =====
-- Concrete runs: the tests, and an instance of each theorem that has conditions.
pub mod Data
pub mod Nodes
pub mod Tables
pub mod Ribs
pub mod Runs
pub mod Places
pub mod PlacesV6
