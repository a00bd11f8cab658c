-- ===== src/System.antt =====
-- The running system as the handlers see it: the database, what was sent to the outside, and an
-- environment that answers every call to code that is not in the repository.
pub mod Env
pub mod Act
pub mod Keeps
pub mod Ensures
pub mod Quiet
pub mod Leads
