-- ===== src/Mm.antt =====
-- Memory management: kernel/src/mm.
pub mod Vma
pub mod Mapping
pub mod Holds
pub mod Buddy
pub mod Frame
