-- ===== src/Sync.antt =====
-- The synchronisation subsystem: the job queue, the run register, the worker and the orchestrator.
pub mod Tables
pub mod Parsing
pub mod State
pub mod Control
pub mod Jobs
pub mod Progress
pub mod Integrity
pub mod AutoEnqueue
pub mod Orchestrator
pub mod Worker
