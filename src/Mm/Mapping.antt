-- ===== src/Mm/Mapping.antt =====
-- kernel/src/mm/mapping_model.rs: the plan that maps physical ranges by 4 KiB, 2 MiB and 1 GiB pages.
pub mod Plan
pub mod Tiles
pub mod Cover
pub mod Check
mod Tests
