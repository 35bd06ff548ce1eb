-- ===== src/Mm/Vma.antt =====
-- kernel/src/mm/vma.rs: a process's memory map, the bookkeeping of brk, mmap, munmap and mprotect.
pub mod Region
pub mod Monad
pub mod Regions
pub mod Ops
pub mod Fresh
pub mod View
pub mod Sorted
pub mod Gap
pub mod Spans
pub mod Valid
pub mod Choose
pub mod Place
pub mod Calls
pub mod Reinsert
pub mod Protect
pub mod Brk
pub mod Device
pub mod Prot
mod Tests
