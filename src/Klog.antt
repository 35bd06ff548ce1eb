-- ===== src/Klog.antt =====
-- kernel/src/klog_ring.rs: the byte ring of the kernel log.
pub mod Ring
pub mod Contents
pub mod Last
pub mod Search
mod Tests
