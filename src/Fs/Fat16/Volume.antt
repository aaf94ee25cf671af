-- ===== src/Fs/Fat16/Volume.antt =====
-- The boot record of a FAT16 volume (`struct bpb`, `struct ebr`, `fat`) and fat16_validate of
-- kernel/src/fs/fat16.c.
pub mod Laws
use dos_kernel.Common.{
  ℕ, zero, suc, ◌+◌, ◌-◌, ◌*◌, ◌^◌, Bool, true, false, not, ◌&&◌, ◌||◌, List, [], ◌∷◌, bit_and, ltb,
  ◌==◌, if◌then◌else◌,
}

pub record Bpb : Type 0 where
  pub jmp_boot : List ℕ
  pub oem_name : List ℕ
  pub bps : ℕ
  pub spc : ℕ
  pub rsc : ℕ
  pub num_fats : ℕ
  pub rec : ℕ
  pub ts16 : ℕ
  pub media : ℕ
  pub fat_s : ℕ
  pub spt : ℕ
  pub heads : ℕ
  pub hidden : ℕ
  pub ts32 : ℕ

pub record Ebr : Type 0 where
  pub drive_num : ℕ
  pub r1 : ℕ
  pub bsig : ℕ
  pub vol_id : ℕ
  pub vol_lab : List ℕ
  pub f_type : List ℕ

pub record Fat : Type 0 where
  pub bpb : Bpb
  pub ebr : Ebr

-- `sizeof(fat)` of the packed struct.
abbrev pub fat_bytes : ℕ
fat_bytes = 62

-- A sector in memory, by the offset of the byte.
abbrev pub Sector : Type 0
Sector = ℕ → ℕ

abbrev pub le16 : Sector → ℕ → ℕ
le16 sector i = sector i + sector (i + 1) * 2 ^ 8

abbrev pub le32 : Sector → ℕ → ℕ
le32 sector i =
    sector i + sector (i + 1) * 2 ^ 8 + sector (i + 2) * 2 ^ 16 + sector (i + 3) * 2 ^ 24

abbrev pub bytes_at : Sector → ℕ → ℕ → List ℕ
bytes_at sector i zero = []
bytes_at sector i (suc n) = sector i ∷ bytes_at sector (i + 1) n

-- `memcpy(f, sector, sizeof(fat))`: the fields of the packed struct at their offsets.
unfoldable pub fat_of_sector : Sector → Fat
fat_of_sector sector = record {
  bpb = record {
    jmp_boot = bytes_at sector 0 3;
    oem_name = bytes_at sector 3 8;
    bps = le16 sector 11;
    spc = sector 13;
    rsc = le16 sector 14;
    num_fats = sector 16;
    rec = le16 sector 17;
    ts16 = le16 sector 19;
    media = sector 21;
    fat_s = le16 sector 22;
    spt = le16 sector 24;
    heads = le16 sector 26;
    hidden = le32 sector 28;
    ts32 = le32 sector 32;
  };
  ebr = record {
    drive_num = sector 36;
    r1 = sector 37;
    bsig = sector 38;
    vol_id = le32 sector 39;
    vol_lab = bytes_at sector 43 11;
    f_type = bytes_at sector 54 8;
  };
}

unfoldable pub fat16_validate : Fat → ℕ
fat16_validate f =
    if (ltb f.bpb.bps 512 || ltb 4096 f.bpb.bps) || not (bit_and f.bpb.bps (f.bpb.bps - 1) == 0)
    then 1
    else if f.bpb.spc == 0 || not (bit_and f.bpb.spc (f.bpb.spc - 1) == 0)
    then 2
    else if ltb f.bpb.rsc 1
    then 3
    else if ltb f.bpb.num_fats 1
    then 4
    else if f.bpb.fat_s == 0
    then 5
    else if f.bpb.ts16 == 0 && f.bpb.ts32 == 0
    then 6
    else if not (f.ebr.bsig == 0x29)
    then 7
    else if f.ebr.vol_id == 0
    then 8
    else 0
