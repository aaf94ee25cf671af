-- ===== src/Fs/Fat16/FatSize.antt =====
-- fat16_compute_fat_size of kernel/src/fs/fat16.c: the search for the number of sectors of one
-- allocation table, in `uint32_t` arithmetic, with fuel for its `for (;;)`.
pub mod Ends
use dos_kernel.Common.{
  ℕ, zero, suc, ◌+◌, ◌-◌, ◌*◌, ◌/◌, ◌%◌, ◌^◌, ◌≤◌, ◌<◌, ◌≡◌, ◌≢◌, refl, Bool, true, false, ◌||◌,
  Option, none, some, arith, ltb, leb, ◌==◌, if◌then◌else◌, u16, sub32, ◌⊎◌, inl, inr, Bool-cases,
}

abbrev pub sector_size : ℕ
sector_size = 512

abbrev pub root_entries : ℕ
root_entries = 512

abbrev pub reserved_sectors : ℕ
reserved_sectors = 1

abbrev pub num_fats : ℕ
num_fats = 2

abbrev pub cluster_size : ℕ
cluster_size = 8

abbrev pub root_dir_sectors : ℕ
root_dir_sectors = (root_entries * 32 + sector_size - 1) / sector_size

-- `total_sectors - FAT16_RESERVED_SECTORS - FAT16_NUM_FATS * fat_size - root_dir_sectors`
pub data_sectors : ℕ → ℕ → ℕ
data_sectors total fat_size =
    sub32 (sub32 (sub32 total reserved_sectors) (num_fats * fat_size)) root_dir_sectors

pub cluster_count : ℕ → ℕ → ℕ
cluster_count total fat_size = data_sectors total fat_size / cluster_size

pub next_size : ℕ → ℕ → ℕ
unfolding cluster_count
next_size total fat_size = u16 ((cluster_count total fat_size * 2 + sector_size - 1) / sector_size)

-- The two early returns of the loop: `(int32_t)data_sectors <= 0`, and a cluster count that is
-- not one of FAT16.
pub rejects : ℕ → ℕ → Bool
unfolding data_sectors cluster_count
rejects total fat_size =
    (data_sectors total fat_size == 0 || leb (2 ^ 31) (data_sectors total fat_size))
    || (ltb (cluster_count total fat_size) 4085 || leb 65525 (cluster_count total fat_size))

-- `none` is a loop that has not ended in `fuel` rounds.
pub size_loop : ℕ → ℕ → ℕ → Option ℕ
unfolding rejects next_size
size_loop zero total fat_size = none
size_loop (suc fuel) total fat_size =
    let rest = size_loop fuel total (next_size total fat_size) in
    if rejects total fat_size
    then some 0
    else if next_size total fat_size == fat_size
    then some fat_size
    else rest

unfoldable pub compute_fat_size : ℕ → ℕ → Option ℕ
unfolding size_loop
compute_fat_size fuel total = size_loop fuel total 1

-- The number of sectors for which the search swings between two sizes: 240 pairs.
abbrev pub Swings : ℕ → Type 0
Swings total = (k : ℕ) × (16 ≤ k) × (k ≤ 255) × ((total ≡ 2050 * k + 41) ⊎ (total ≡ 2050 * k + 42))

-- The sizes on the way stay small, so nothing wraps.
abbrev plain_next : ℕ → ℕ → ℕ
plain_next total fat_size = ((total - (33 + 2 * fat_size)) / 8 * 2 + 511) / 512

abbrev Fits : ℕ → ℕ → Type 0
Fits total fat_size =
    (33 + 2 * fat_size + 4085 * 8 ≤ total) × (total < 33 + 2 * fat_size + 65525 * 8)

accepts : (t s : ℕ) → t < 2 ^ 32 → s < 2 ^ 16 → rejects t s ≡ false → Fits t s
unfolding rejects
accepts t s ht hs h = ground arith

Fits-accepts : (t s : ℕ) → t < 2 ^ 32 → s < 2 ^ 16 → Fits t s → rejects t s ≡ false
unfolding rejects
Fits-accepts t s ht hs h = ground arith

next_size_lem : (t s : ℕ) → t < 2 ^ 32 → s < 2 ^ 16 → Fits t s → next_size t s ≡ plain_next t s
unfolding next_size data_sectors
next_size_lem t s ht hs h = omega arith
