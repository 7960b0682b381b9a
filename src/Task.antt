-- ===== src/Task.antt =====
-- src/task: threads and their scheduling.
pub mod Scheduler
