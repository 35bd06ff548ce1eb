-- ===== src/Sound/Ring.antt =====
-- kernel/src/sound/ring.rs: the playback ring, one DMA buffer in periods that the card plays in order.
pub mod Queue
pub mod Laws
mod Tests
