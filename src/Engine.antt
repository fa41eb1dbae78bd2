-- ===== src/Engine.antt =====
-- engine/: planning and running a migration.
pub mod Connectors
pub mod Idempotency
pub mod Planner
pub mod Runner
pub mod Background
pub mod Cron
pub mod Scheduler
pub mod Webhooks
pub mod Batch
pub mod Preflight
pub mod Mailer
pub mod RedisJobs
pub mod Reporting
