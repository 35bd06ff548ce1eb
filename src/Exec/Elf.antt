-- ===== src/Exec/Elf.antt =====
-- kernel/src/exec/elf.rs: ELF64 executables, validated into a plan of how to load them.
pub mod Plan
pub mod Segments
pub mod Pages
