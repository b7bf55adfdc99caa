-- ===== src/Sync.antt =====
-- thread/sync.c and sync.h: binary semaphores and recursive locks, over the scheduler.
pub mod Defs
pub mod Lock
pub mod Release
pub mod Used
mod Tests
