-- ===== src/Fs.antt =====
-- The file system's core: kernel/src/fs.
pub mod Errno
pub mod Results
pub mod Path
pub mod File
mod Tests
