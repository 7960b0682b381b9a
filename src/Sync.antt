-- ===== src/Sync.antt =====
-- src/sync: the locks.
pub mod Yieldlock
pub mod Mutex
pub mod CondVar
pub mod Spinlock
mod Tests
