-- ===== src/Mm/Frame.antt =====
-- kernel/src/mm/frame.rs: the allocator of page frames around the bitmap and the buddy lists.
pub mod Allocator
pub mod Scan
pub mod Find
pub mod Unreserve
pub mod Reserve
mod Tests
