-- ===== src/Mm/Holds.antt =====
-- kernel/src/mm/holds.rs: frames that are free but held back until the boot is over.
pub mod Table
pub mod Count
pub mod Punch
pub mod Release
pub mod History
mod Tests
