-- ===== src/Exec.antt =====
-- Program files and their images: kernel/src/exec.
pub mod Elf
pub mod Image
pub mod Loads
pub mod Stack
mod Tests
