-- ===== src/Mm/Buddy.antt =====
-- kernel/src/mm/buddy.rs: the buddy allocator of page frames.
pub mod Lists
pub mod Blocks
pub mod Flip
pub mod Chain
pub mod Unchain
pub mod Valid
pub mod Push
pub mod Unlink
pub mod Steps
pub mod Tags
pub mod Merge
pub mod Marks
pub mod Release
pub mod Find
pub mod Allocate
pub mod Serve
pub mod Owners
pub mod Build
pub mod Carve
pub mod Heads
pub mod Isolate
pub mod Restore
pub mod Largest
pub mod Rebuild
mod Tests
