-- ===== src/Fs/Fat16/Boot.antt =====
-- The boot sector that fat16_format of kernel/src/fs/fat16.c writes.
pub mod Laws
use dos_kernel.Common.{
  ℕ, zero, suc, ◌+◌, ◌*◌, ◌^◌, Bool, ◌∷◌, [], List, bit_and, ◌>>>◌, ltb, leb, ◌==◌, if◌then◌else◌,
  u8,
}
use dos_kernel.Fs.Fat16.FatSize.{
  sector_size, root_entries, reserved_sectors, num_fats, cluster_size,
}
use dos_kernel.Fs.Fat16.Volume.{Sector}

abbrev pub media : ℕ
media = 0xF8

abbrev pub vol_id : ℕ
vol_id = 0x12345678

-- "MSDOS5.0", "NO NAME    " and "FAT16   ".
abbrev pub oem : List ℕ
oem = 0x4D ∷ 0x53 ∷ 0x44 ∷ 0x4F ∷ 0x53 ∷ 0x35 ∷ 0x2E ∷ 0x30 ∷ []

abbrev pub vol_label : List ℕ
vol_label = 0x4E ∷ 0x4F ∷ 0x20 ∷ 0x4E ∷ 0x41 ∷ 0x4D ∷ 0x45 ∷ 0x20 ∷ 0x20 ∷ 0x20 ∷ 0x20 ∷ []

abbrev pub fs_type : List ℕ
fs_type = 0x46 ∷ 0x41 ∷ 0x54 ∷ 0x31 ∷ 0x36 ∷ 0x20 ∷ 0x20 ∷ 0x20 ∷ []

-- `memset(sector, 0, FAT16_SECTOR_SIZE)`
abbrev pub blank : Sector
blank i = 0

-- `sector[at] = v`, a byte.
abbrev pub put : ℕ → ℕ → Sector → Sector
put at v sector i = if i == at then u8 v else sector i

-- `memcpy(sector + at, bytes, n)` of a string constant.
abbrev pub put_all : ℕ → List ℕ → Sector → Sector
put_all at [] sector = sector
put_all at (b ∷ bs) sector = put_all (at + 1) bs (put at b sector)

unfoldable pub boot_head : Sector
boot_head = put 18 (root_entries >>> 8) (
    put 17 (bit_and root_entries 0xFF) (
      put 16 num_fats (
        put 15 (reserved_sectors >>> 8) (
          put 14 (bit_and reserved_sectors 0xFF) (
            put 13 cluster_size (
              put 12 (sector_size >>> 8) (
                put 11 (bit_and sector_size 0xFF)
                  (put_all 3 oem (put 2 0x90 (put 1 0x3C (put 0 0xEB blank)))))))))))

-- The 16-bit count of sectors, when it fits.
unfoldable pub boot_small : ℕ → Sector → Sector
boot_small total sector =
    if leb total 0xFFFF then put 20 (total >>> 8) (put 19 (bit_and total 0xFF) sector) else sector

unfoldable pub boot_geometry : ℕ → Sector → Sector
boot_geometry fat_size sector = put 31 0 (
    put 30 0 (
      put 29 0 (
        put 28 0 (
          put 27 (255 >>> 8) (
            put 26 (bit_and 255 0xFF) (
              put 25 (63 >>> 8) (
                put 24 (bit_and 63 0xFF) (
                  put 23 (fat_size >>> 8)
                    (put 22 (bit_and fat_size 0xFF) (put 21 media sector))))))))))

-- The 32-bit count of sectors, when the 16-bit one does not serve.
unfoldable pub boot_large : ℕ → Sector → Sector
boot_large total sector =
    if ltb 0xFFFF total
    then put 35 (bit_and (total >>> 24) 0xFF) (
        put 34 (bit_and (total >>> 16) 0xFF)
          (put 33 (bit_and (total >>> 8) 0xFF) (put 32 (bit_and total 0xFF) sector)))
    else sector

unfoldable pub boot_tail : Sector → Sector
boot_tail sector = put 511 0xAA (
    put 510 0x55 (
      put_all 54 fs_type (
        put_all 43 vol_label (
          put 42 (bit_and (vol_id >>> 24) 0xFF) (
            put 41 (bit_and (vol_id >>> 16) 0xFF) (
              put 40 (bit_and (vol_id >>> 8) 0xFF)
                (put 39 (bit_and vol_id 0xFF) (put 38 0x29 (put 37 0 (put 36 0x80 sector))))))))))

unfoldable pub boot_sector : ℕ → ℕ → Sector
unfolding boot_head boot_small boot_geometry boot_large boot_tail
boot_sector total fat_size =
    boot_tail (boot_large total (boot_geometry fat_size (boot_small total boot_head)))

-- The first sector of an allocation table.
unfoldable pub fat_head : Sector
fat_head = put 3 0xFF (put 2 0xFF (put 1 0xFF (put 0 media blank)))
