-- ===== src/Engine/Runner.antt =====
-- engine/runner.py: one run of a migration.
pub mod Items
pub mod Run
pub mod Frame
pub mod Outcome
pub mod ItemCases
pub mod Accounting
pub mod Resume
pub mod Abstract
pub mod Refinement
pub mod Checkpoints
pub mod Isolation
pub mod Threshold
pub mod DryRun
