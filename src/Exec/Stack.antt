-- ===== src/Exec/Stack.antt =====
-- kernel/src/exec/stack.rs: the initial stack of a program.
pub mod Build
pub mod Layout
pub mod Start
pub mod Texts
mod Tests
