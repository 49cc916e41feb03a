-- ===== src/WorkThread.antt =====
-- workthread/: threads that can be paused.
pub mod List
pub mod Bsem
pub mod Worker
mod Tests
