-- ===== src/Fs/Fat16/Format.antt =====
-- fat16_format of kernel/src/fs/fat16.c: the writes of a fresh volume and its error returns.
pub mod Writes
pub mod Layout
pub mod Laws
use dos_kernel.Common.{
  ℕ, zero, suc, ◌+◌, ◌-◌, ◌*◌, ◌^◌, Bool, not, Option, none, some, List, [], ◌∷◌, ◌==◌,
  if◌then◌else◌, ltb, Run, Cmd, ok, out_of_fuel, pure, ◌>>=◌, ◌>>◌, u16, u32,
}
use dos_kernel.Fs.Fat16.FatSize.{reserved_sectors, num_fats, root_dir_sectors, compute_fat_size}
use dos_kernel.Fs.Fat16.Volume.{Sector}
use dos_kernel.Fs.Fat16.Boot.{blank, boot_sector, fat_head}
use dos_kernel.Fs.Fat16.Env.{Env, History, Event, Place, took_frame, gave_frame, wrote}

-- `enum StorageDevType` of kernel/include/fs/vfs.h has one value.
abbrev pub ahci : ℕ
ahci = 0

module _ (env : Env) (controller port : ℕ) where
  unfoldable pub frame_alloc : Cmd History ℕ
  frame_alloc h =
      if env.frame_alloc h == 0
      then ok 0 h
      else ok (env.frame_alloc h) (took_frame (env.frame_alloc h) ∷ h)

  unfoldable pub frame_free : ℕ → Cmd History (Unit {0})
  frame_free phys h = ok tt (gave_frame phys ∷ h)

  unfoldable pub ahci_write : ℕ → Sector → Cmd History ℕ
  ahci_write lba sector h =
      let place : Place = record { controller = controller; port = port; lba = lba } in
      ok (env.ahci_write h place sector) (wrote place sector ∷ h)

  -- `for (j = from; j < end; j++)` with `rounds` rounds left: the same sector to `base + j`. The
  -- result is `code` when a write fails, and 0 when all are done.
  unfoldable pub write_range : ℕ → ℕ → ℕ → ℕ → Sector → Cmd History ℕ
  write_range code zero base j sector = pure 0
  write_range code (suc rounds) base j sector = do
    status ← ahci_write (u32 (base + j)) sector
    if status == 0 then write_range code rounds base (j + 1) sector else pure code

  -- One table: its first sector, and blank sectors after it.
  unfoldable pub write_table : ℕ → ℕ → Sector → Cmd History ℕ
  write_table fat_size base sector = do
    status ← ahci_write base sector
    if status == 0 then write_range 6 (fat_size - 1) base 1 blank else pure 5

  -- `for (i = from; i < FAT16_NUM_FATS; i++)` with `rounds` rounds left. The sector is cleared within
  -- the first round, and stays so.
  unfoldable pub write_tables : ℕ → ℕ → ℕ → Sector → Cmd History ℕ
  write_tables zero fat_size i sector = pure 0
  write_tables (suc rounds) fat_size i sector = do
    code ← write_table fat_size (u32 (reserved_sectors + i * fat_size)) sector
    if code == 0 then write_tables rounds fat_size (i + 1) blank else pure code

  -- From the frame on: every way out gives it back.
  unfoldable pub write_volume : ℕ → ℕ → Cmd History ℕ
  write_volume total fat_size = do
    status ← ahci_write 0 (boot_sector total fat_size)
    if not (status == 0) then pure 4 else do
      code ← write_tables num_fats fat_size 0 fat_head
      if not (code == 0)
          then pure code
          else write_range 7 root_dir_sectors (u32 (reserved_sectors + num_fats * fat_size)) 0 blank

  -- fat16_format once the size of a table is known.
  unfoldable pub size_known : ℕ → ℕ → Cmd History ℕ
  size_known total fat_size = if fat_size == 0 then pure 2 else do
    phys ← frame_alloc
    if phys == 0 then pure 3 else do code ← write_volume total fat_size; frame_free phys; pure code

  -- `fuel` bounds the rounds of fat16_compute_fat_size.
  unfoldable pub fat16_format : ℕ → ℕ → ℕ → Cmd History ℕ
  fat16_format fuel type total =
      if not (type == ahci) then pure 1 else elim (compute_fat_size fuel total) [
        | none ↦ λ _. out_of_fuel
        | some fat_size ↦ size_known total fat_size
      ]
