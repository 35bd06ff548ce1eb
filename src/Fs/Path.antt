-- ===== src/Fs/Path.antt =====
-- kernel/src/fs/path.rs: paths.
pub mod Resolve
pub mod Steps
