-- ===== src/State.antt =====
-- engine/state.py: the SQLite store, a table at a time.
pub mod Schema
pub mod Jobs
pub mod Progress
pub mod Batches
pub mod Accounts
pub mod Schedules
pub mod Webhooks
pub mod Organizations
pub mod OidcProviders
pub mod Listings
pub mod SyncKey
