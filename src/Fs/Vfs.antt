-- ===== src/Fs/Vfs.antt =====
-- kernel/src/fs/vfs.c with kernel/include/fs/vfs.h: the routines that are not written yet. Their arguments are
-- not used; each returns a constant.
use dos_kernel.Common.{ℕ, List}

pub data StorageDevType : Type 0 where
  ahci : StorageDevType

unfoldable pub vfs_init : {S : Type 0} → S → S
vfs_init s = s

unfoldable pub vfs_mount : StorageDevType → ℕ → ℕ → ℕ
vfs_mount type controller port = 0

unfoldable pub vfs_unmount : {S : Type 0} → S → S
vfs_unmount s = s

unfoldable pub vfs_read : List ℕ → ℕ → ℕ → ℕ
vfs_read path buffer size = 1

unfoldable pub vfs_write : List ℕ → ℕ → ℕ → ℕ
vfs_write path buffer size = 1

unfoldable pub vfs_format : StorageDevType → ℕ → ℕ → ℕ → ℕ
vfs_format type controller port total_sectors = 1
