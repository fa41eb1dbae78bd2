-- ===== src/Domain.antt =====
-- models/domain.py: what a migration request is made of.
pub mod Types
pub mod Workload
pub mod ToDict
pub mod FromDict
