-- ===== src/Tests.antt =====
-- Runs of the model on concrete inputs.
pub mod Fixture
pub mod Witness
pub mod Routing
pub mod Startup
pub mod Secrets
