-- ===== src/Fs/Fat16/Boot/Laws.antt =====
-- The boot sector as fat16_init reads it back.
use dos_kernel.Common.{ℕ, ◌/◌, ◌%◌, ◌^◌, ◌<◌, ◌≡◌, ◌≢◌, arith, bit_and, ◌==◌, if◌then◌else◌, leb}
use dos_kernel.Common.Bits.{bit_and_mask}
use dos_kernel.Fs.Fat16.Volume.{Fat, fat_of_sector, fat16_validate}
use dos_kernel.Fs.Fat16.Boot.{boot_sector}

byte_of : (x : ℕ) → bit_and x 0xFF ≡ x % 2 ^ 8
byte_of x = bit_and_mask 8 x

abbrev fat : ℕ → ℕ → Fat
fat total fat_size = fat_of_sector (boot_sector total fat_size)

module _ (total fat_size : ℕ) (ht : total < 2 ^ 32) (hf : fat_size < 2 ^ 16) where
  boot_fat_s : (fat total fat_size).bpb.fat_s ≡ fat_size
  unfolding fat_of_sector boot_sector
  boot_fat_s = ground (arith, byte_of fat_size)

  boot_ts16 : (fat total fat_size).bpb.ts16 ≡ (if leb total 0xFFFF then total else 0)
  unfolding fat_of_sector boot_sector
  boot_ts16 = ground (arith, byte_of total)

  boot_ts32 : (fat total fat_size).bpb.ts32 ≡ (if leb total 0xFFFF then 0 else total)
  unfolding fat_of_sector boot_sector
  boot_ts32 = ground (
    arith,
    byte_of total,
    byte_of (total / 2 ^ 8),
    byte_of (total / 2 ^ 16),
    byte_of (total / 2 ^ 24),
  )

  boot_bps : (fat total fat_size).bpb.bps ≡ 512
  unfolding fat_of_sector boot_sector
  boot_bps = ground arith

  boot_rest :
      ((fat total fat_size).bpb.spc ≡ 8)
      × ((fat total fat_size).bpb.rsc ≡ 1)
      × ((fat total fat_size).bpb.num_fats ≡ 2)
      × ((fat total fat_size).bpb.rec ≡ 512)
      × ((fat total fat_size).ebr.bsig ≡ 0x29)
      × ((fat total fat_size).ebr.vol_id ≡ 0x12345678)
  unfolding fat_of_sector boot_sector
  boot_rest = ground arith

-- What fat16_init reads back from the sector that fat16_format writes passes fat16_validate and gives
-- the number of sectors, the table size, and the layout that the format used.
pub boot_sector-valid :
    (total fat_size : ℕ)
    → total < 2 ^ 32
    → fat_size < 2 ^ 16
    → total ≢ 0
    → fat_size ≢ 0
    → let f = fat_of_sector (boot_sector total fat_size) in
      (fat16_validate f ≡ 0)
      × (f.bpb.fat_s ≡ fat_size)
      × ((if f.bpb.ts16 == 0 then f.bpb.ts32 else f.bpb.ts16) ≡ total)
      × (f.bpb.bps ≡ 512)
      × (f.bpb.rsc ≡ 1)
      × (f.bpb.num_fats ≡ 2)
      × (f.bpb.rec ≡ 512)
unfolding fat16_validate
boot_sector-valid total fat_size ht hf nt nf =
    let s = boot_fat_s total fat_size ht hf in
    let t = boot_ts16 total fat_size ht hf in
    let u = boot_ts32 total fat_size ht hf in
    let b = boot_bps total fat_size ht hf in
    let r = boot_rest total fat_size ht hf in
    (
      rw (b, r.0, r.1, r.2, r.4, r.5, s, t, u) (ground arith),
      s,
      rw (t, u) (ground arith),
      b,
      r.1,
      r.2,
      r.3,
    )
