-- ===== src/Logging.antt =====
-- kernel/src/logging and kernel/src/panic.c: what the kernel prints.
pub mod Printk
pub mod Serial
pub mod Panic
