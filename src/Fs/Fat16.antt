-- ===== src/Fs/Fat16.antt =====
-- kernel/src/fs/fat16.c.
pub mod FatSize
pub mod Volume
pub mod Boot
pub mod Env
pub mod Format
pub mod Mount
pub mod Read
