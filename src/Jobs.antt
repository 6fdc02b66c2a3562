-- ===== src/Jobs.antt =====
-- cppkg/jobs: functions that run when a scope ends, threads that can be told to stop, and queues of
-- jobs.
pub mod Sequence
pub mod ScopeGuard
pub mod ManagedJob
mod Tests
