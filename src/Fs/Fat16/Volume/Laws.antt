-- ===== src/Fs/Fat16/Volume/Laws.antt =====
-- Which boot records fat16_validate accepts.
use dos_kernel.Common.{
  ℕ, ◌-◌, ◌<◌, ◌≡◌, ◌≢◌, ◌↔◌, ◌⊎◌, refl, arith, Bool, true, false, not, ◌&&◌, ◌||◌, bit_and, ◌==◌,
  if◌then◌else◌, ltb, leb,
}
use dos_kernel.Common.Range.{every, every_at}
use dos_kernel.Fs.Fat16.Volume.{Fat, fat16_validate}

-- A power of two from 1 to 128, as one byte.
abbrev pub is_byte_power : ℕ → Bool
is_byte_power x =
    ((x == 1 || x == 2) || (x == 4 || x == 8)) || ((x == 16 || x == 32) || (x == 64 || x == 128))

abbrev pub is_sector_power : ℕ → Bool
is_sector_power x = (x == 512 || x == 1024) || (x == 2048 || x == 4096)

abbrev same : Bool → Bool → Bool
same true b = b
same false b = not b

abbrev byte_ok : ℕ → Bool
byte_ok x = same (not (x == 0) && bit_and x (x - 1) == 0) (is_byte_power x)

abbrev sector_ok : ℕ → Bool
sector_ok x = same ((leb 512 x && leb x 4096) && bit_and x (x - 1) == 0) (is_sector_power x)

byte_table : every byte_ok 256 ≡ true
unfolding every
byte_table = refl

sector_table : every sector_ok 4097 ≡ true
unfolding every
sector_table = refl

byte_power : (x : ℕ) → x < 256 → (not (x == 0) && bit_and x (x - 1) == 0) ≡ is_byte_power x
byte_power x h = let t = every_at byte_ok 256 x byte_table h in ground arith

sector_power :
    (x : ℕ) → x < 4097 → ((leb 512 x && leb x 4096) && bit_and x (x - 1) == 0) ≡ is_sector_power x
sector_power x h = let t = every_at sector_ok 4097 x sector_table h in ground arith

bps_test :
    (b : ℕ) → ((ltb b 512 || ltb 4096 b) || not (bit_and b (b - 1) == 0)) ≡ not (is_sector_power b)
bps_test b = ground (arith, sector_power b)

spc_test : (c : ℕ) → c < 256 → (c == 0 || not (bit_and c (c - 1) == 0)) ≡ not (is_byte_power c)
spc_test c h = ground (arith, byte_power c)

-- The fields that fat16_validate looks at, in the words of the format. The 0x55AA at the end of the sector, the name of the
-- file system and the count of clusters are not among them.
pub record IsVolume (f : Fat) : Type 0 where
  pub bps : is_sector_power f.bpb.bps ≡ true
  pub spc : is_byte_power f.bpb.spc ≡ true
  pub reserved : f.bpb.rsc ≢ 0
  pub tables : f.bpb.num_fats ≢ 0
  pub table_size : f.bpb.fat_s ≢ 0
  pub sectors : (f.bpb.ts16 ≢ 0) ⊎ (f.bpb.ts32 ≢ 0)
  pub signature : f.ebr.bsig ≡ 0x29
  pub named : f.ebr.vol_id ≢ 0

-- The checks after those of the two powers.
abbrev rest_of : Fat → ℕ
rest_of f =
    if ltb f.bpb.rsc 1
    then 3
    else if ltb f.bpb.num_fats 1
    then 4
    else if f.bpb.fat_s == 0
    then 5
    else if f.bpb.ts16 == 0 && f.bpb.ts32 == 0
    then 6
    else if not (f.ebr.bsig == 0x29)
    then 7
    else if f.ebr.vol_id == 0
    then 8
    else 0

accepts_rest : (f : Fat) → IsVolume f → rest_of f ≡ 0
accepts_rest f v = let n = v.sectors in ground arith

accepted :
    (f : Fat) (b c : Bool)
    → is_sector_power f.bpb.bps ≡ b
    → is_byte_power f.bpb.spc ≡ c
    → (if not b then 1 else if not c then 2 else rest_of f) ≡ 0
    → IsVolume f
accepted f false c eb ec e = absurd (omega arith)
accepted f true false eb ec e = absurd (omega arith)
accepted f true true eb ec e = record {
  bps = eb;
  spc = ec;
  reserved = ground arith;
  tables = ground arith;
  table_size = ground arith;
  sectors = ground arith;
  signature = ground arith;
  named = ground arith;
}

-- fat16_validate accepts exactly the records with a sector size of 512, 1024, 2048 or 4096 bytes, a
-- power of two of sectors in a cluster, at least one reserved sector, one table and one sector of a
-- table, a count of sectors, the extended signature, and a volume id.
fat16_validate-IsVolume : (f : Fat) → f.bpb.spc < 256 → (fat16_validate f ≡ 0) ↔ IsVolume f
unfolding fat16_validate
fat16_validate-IsVolume f h = (
  λ e.
      accepted f (is_sector_power f.bpb.bps) (is_byte_power f.bpb.spc) refl refl
        (rw (bps_test f.bpb.bps, spc_test f.bpb.spc h) at e),
  λ v. rw (bps_test f.bpb.bps, spc_test f.bpb.spc h, v.bps, v.spc) (accepts_rest f v),
)
