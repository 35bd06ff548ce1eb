-- ===== src/Task/Scheduler.antt =====
-- kernel/src/task/scheduler.rs: the single-CPU EEVDF scheduler core.
pub mod State
pub mod Monad
pub mod Average
pub mod Pick
pub mod Ops
pub mod Calls
pub mod Wait
pub mod Store
pub mod Slots
pub mod Keeps
pub mod Runs
pub mod Dispatch
pub mod Stop
pub mod Wake
pub mod Drain
pub mod Lives
pub mod Reach
pub mod History
pub mod Earliest
pub mod Views
pub mod Sleepers
pub mod Expire
