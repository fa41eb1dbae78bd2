-- ===== src/Tests.antt =====
-- Tests of the definitions at concrete inputs.
pub mod Fixtures
pub mod Runs
pub mod Stores
pub mod Managers
pub mod Plans
pub mod Times
pub mod Requests
pub mod Accounts
