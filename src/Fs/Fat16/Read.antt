-- ===== src/Fs/Fat16/Read.antt =====
-- fat16_read of kernel/src/fs/fat16.c, over the transfer of the AHCI driver.
use dos_kernel.Common.{ℕ, not, ◌==◌, if◌then◌else◌, Cmd, pure}
use dos_kernel.Storage.Ahci.{Hba, Registers}
use dos_kernel.Storage.Ahci.Transfer.{ahci_read}
use dos_kernel.Fs.Fat16.Format.{ahci}

unfoldable pub fat16_read : Registers → (type controller port lba count buffer : ℕ) → Cmd Hba ℕ
fat16_read dev type controller port lba count buffer =
    if not (type == ahci) then pure 1 else ahci_read dev controller port lba count buffer
