-- ===== src/Driver.antt =====
-- src/driver: the device drivers.
pub mod Keyboard
pub mod HardDisk
