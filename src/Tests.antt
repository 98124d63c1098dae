-- ===== src/Tests.antt =====
-- The theorems at work on small scenarios.
pub mod Scenario
pub mod Examples
pub mod Clients
pub mod Runs
pub mod Pairs
pub mod TestClient
