-- ===== src/Task.antt =====
-- Tasks and their scheduler: kernel/src/task.
pub mod Types
pub mod Entity
pub mod Record
pub mod WaitQueue
pub mod Scheduler
mod Tests
