-- ===== src/Fs.antt =====
-- kernel/src/fs.
pub mod Fat16
pub mod Vfs
