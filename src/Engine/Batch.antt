-- ===== src/Engine/Batch.antt =====
-- engine/batch.py: a batch of migration requests from a table of comma-separated values.
pub mod Texts
pub mod Overrides
pub mod Rows
pub mod Precedence
pub mod Results
pub mod Pairs
