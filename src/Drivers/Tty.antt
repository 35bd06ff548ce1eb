-- ===== src/Drivers/Tty.antt =====
-- kernel/src/drivers/tty.rs: the line discipline of the console.
pub mod Discipline
pub mod Valid
pub mod Typing
pub mod Kills
mod Tests
