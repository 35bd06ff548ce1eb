-- ===== src/Drivers.antt =====
-- The parts of kernel/src/drivers that touch no device.
pub mod Tty
