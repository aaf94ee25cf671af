-- ===== src/Storage.antt =====
-- kernel/src/storage: the AHCI driver.
pub mod Ahci
