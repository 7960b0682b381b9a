-- ===== src/Fs.antt =====
-- src/fs: the file systems.
pub mod NaiveFs
pub mod Vfs
