-- ===== src/Fs/File.antt =====
-- kernel/src/fs/file.rs: the table of a process's file descriptors. An open file, which the table only
-- hands on and shares, is its name `file`. The lock is left out: a method is modelled as it runs with no other
-- thread between its steps (`dup` and `dup2` take the lock twice, the others once).
pub mod Table
pub mod Slots
pub mod Trimmed
pub mod Methods
pub mod RoundTrip
