-- ===== src/Storage/Ahci/Build.antt =====
-- The command of a slot in memory, as the controller finds it when it is issued.
use dos_kernel.Common.{
  ℕ, ◌+◌, ◌-◌, ◌*◌, ◌/◌, ◌%◌, ◌^◌, ◌≤◌, ◌<◌, ◌≡◌, refl, ◌∙◌, arith, bit_or, u16, u32, u64, sub64,
  ◌<<<◌, ltb, leb, ◌==◌, ◌&&◌, if◌then◌else◌, ◌⊎◌, inl, inr, ok, Run, ◌∷◌,
}
use dos_kernel.Storage.Ahci.{
  Bytes, Hba, Port, Registers, clb, clbu, got, poke8, poke16, poke32, peek32, get_reg,
}
use dos_kernel.Storage.Ahci.Command.{fis, header, build}
use dos_kernel.Storage.Ahci.Fis.{fis_at, sector_of, count_of, fis-fis_at}
use dos_kernel.Storage.Ahci.Prdt.{
  Describes, Describes-kept, piece, peek_poke, peek_other, prdt_loop-buffer,
}

fis_other :
    (a command sector count : ℕ) (m : Bytes) (b : ℕ)
    → (b < a) ⊎ (a + 20 ≤ b)
    → fis a command sector count m b ≡ m b
unfolding fis
fis_other a command sector count m b out = ground arith

-- What the header of a command says, HBA_CMD_HEADER: the length of the FIS in words, the direction, the number of
-- entries, and the address of the table.
header_fields :
    (at w n : ℕ) (m : Bytes)
    → w < 2
    → n < 2 ^ 16
    → let g = header at w n m in
      (g at % 2 ^ 5 ≡ 5) × (g at / 2 ^ 6 % 2 ≡ w) × (g (at + 2) + g (at + 3) * 2 ^ 8 ≡ n)
unfolding header
header_fields at w n m hw hn = ground arith

-- The flags and the counts of a header stand below the address of its table.
flags_below :
    (m : Bytes) (at x y z b : ℕ)
    → at + 8 ≤ b
    → poke32 (poke16 (poke8 (poke8 m at x) at y) (at + 2) z) (at + 4) 0 b ≡ m b
flags_below m at x y z b h = ground arith

peek_same :
    (m g : Bytes) (a : ℕ) → ((b : ℕ) → a ≤ b → b < a + 4 → g b ≡ m b) → peek32 g a ≡ peek32 m a
peek_same m g a same =
    rw
      (
        same a (omega arith) (omega arith),
        same (a + 1) (omega arith) (omega arith),
        same (a + 2) (omega arith) (omega arith),
        same (a + 3) (omega arith) (omega arith),
      )
      refl

header_links :
    (at w n : ℕ) (m : Bytes)
    → let g = header at w n m in
      (peek32 g (at + 8) ≡ peek32 m (at + 8) % 2 ^ 32)
      × (peek32 g (at + 12) ≡ peek32 m (at + 12) % 2 ^ 32)
unfolding header
header_links at w n m =
    let blank : Bytes = λ b. if leb at b && ltb b (at + 32) then 0 else m b in
    let first : Bytes = poke32 blank (at + 8) (peek32 m (at + 8)) in
    let linked : Bytes = poke32 first (at + 12) (peek32 m (at + 12)) in
    let x = linked at / 2 ^ 5 * 2 ^ 5 + 20 / 4 in
    let cfl : Bytes = poke8 linked at x in
    let y = cfl at / 2 ^ 7 * 2 ^ 7 + w * 2 ^ 6 + cfl at % 2 ^ 6 in
    (
      peek_same linked (header at w n m) (at + 8)
            (λ b l u. unfold header in flags_below linked at x y (u16 n) b (omega arith))
          ∙ peek_other first (at + 12) (peek32 m (at + 12)) (at + 8) (inl (omega arith))
          ∙ peek_poke blank (at + 8) (peek32 m (at + 8)),
      peek_same linked (header at w n m) (at + 12)
            (λ b l u. unfold header in flags_below linked at x y (u16 n) b (omega arith))
          ∙ peek_poke first (at + 12) (peek32 m (at + 12)),
    )

-- Memory that agrees on the first bytes of a header.
header_kept :
    {m : Bytes} (g : Bytes) (at w n : ℕ)
    → ((b : ℕ) → at ≤ b → b < at + 32 → g b ≡ m b)
    → (m at % 2 ^ 5 ≡ 5) × (m at / 2 ^ 6 % 2 ≡ w) × (m (at + 2) + m (at + 3) * 2 ^ 8 ≡ n)
    → (g at % 2 ^ 5 ≡ 5) × (g at / 2 ^ 6 % 2 ≡ w) × (g (at + 2) + g (at + 3) * 2 ^ 8 ≡ n)
header_kept g at w n kept fields =
    rw
      (
        kept at (omega arith) (omega arith),
        kept (at + 2) (omega arith) (omega arith),
        kept (at + 3) (omega arith) (omega arith),
      )
      fields

-- The addresses of the header of a slot, and of its table, by the registers of the port and by memory.
module _ (dev : Registers) (port : Port) (slot : ℕ) (s : Hba) where
  abbrev pub header_address : ℕ
  header_address =
      let low = u32 (dev s port clb) in
      let high = u32 (dev (record s { log = got port clb ∷ s.log }) port clbu) in
      u64 (u64 (s.offset + bit_or low (high <<< 32)) + 32 * slot)

  abbrev pub table_address : ℕ
  table_address = u64 (
      s.offset
      + bit_or (peek32 s.mem (header_address + 8)) (peek32 s.mem (header_address + 12) <<< 32))

-- A command that is complete in memory: the header at `at`, and the table with the FIS and the pieces of the buffer.
pub record Built (at table w command sector count buf : ℕ) (s : Hba) (run : Run Hba (Unit {0}))
    : Type 0 where
  pub after : Hba
  pub runs : run ≡ ok tt after
  pub length : after.mem at % 2 ^ 5 ≡ 5
  pub direction : after.mem at / 2 ^ 6 % 2 ≡ w
  pub entries : after.mem (at + 2) + after.mem (at + 3) * 2 ^ 8 ≡ (count + 15) / 16
  pub linked :
      (peek32 after.mem (at + 8) ≡ peek32 s.mem (at + 8) % 2 ^ 32)
      × (peek32 after.mem (at + 12) ≡ peek32 s.mem (at + 12) % 2 ^ 32)
  pub from_host : ((fis_at after.mem table).fis_type ≡ 0x27) × ((fis_at after.mem table).c ≡ 1)
  pub commanded : (fis_at after.mem table).command ≡ command
  pub sector_named : sector_of (fis_at after.mem table) ≡ sector
  pub count_named : count_of (fis_at after.mem table) ≡ count
  pub pieces :
      (j : ℕ)
      → j < (count + 15) / 16
      → Describes after.mem
          (table + 128 + 16 * j)
          (sub64 (buf + j * 8192) s.offset)
          (piece count j)
          (if j == (count + 15) / 16 - 1 then 1 else 0)

-- build puts a complete command for the slot into memory: the header with the direction and the number of entries,
-- the FIS with the command, the sector and the number of sectors, and one entry for each piece of the buffer. The
-- command has 1 to 128 sectors, the buffer does not wrap, and header and table lie apart.
pub build-Built :
    (dev : Registers) (port : Port) (slot w command sector count buf : ℕ) (s : Hba)
    → 0 < count
    → count ≤ 128
    → w < 2
    → command < 2 ^ 8
    → sector < 2 ^ 32
    → buf + count * 512 < 2 ^ 64
    → (header_address dev port slot s + 32 ≤ table_address dev port slot s)
      ⊎ (table_address dev port slot s + 384 ≤ header_address dev port slot s)
    → Built
        (header_address dev port slot s)
        (table_address dev port slot s)
        w
        command
        sector
        count
        buf
        s
        (build dev port slot ((count + 15) / 16) w command sector count buf s)
unfolding build get_reg
build-Built dev port slot w command sector count buf s some few hw hc hs fits apart =
    let n = (count + 15) / 16 in
    let at = header_address dev port slot s in
    let table = table_address dev port slot s in
    let headed : Bytes = header at w n s.mem in
    let cleared : Bytes =
      λ b. if leb table b && ltb b (table + (256 + (n - 1) * 16)) then 0 else headed b in
    let before : Hba = record s { mem = cleared; log = got port clbu ∷ (got port clb ∷ s.log) } in
    let (t, runs, tabled) = prdt_loop-buffer table buf count before few fits in
    let blank : Bytes = λ b. if leb table b && ltb b (table + 20) then 0 else t.mem b in
    let final : Bytes = fis table command sector count blank in
    let (type, c, pm, cmd, device, sec, cnt) =
      fis-fis_at table command sector count blank (ground arith) hc hs (omega arith) in
    let outside_fis : (b : ℕ) → (b < table) ⊎ (table + 20 ≤ b) → final b ≡ t.mem b =
      λ b out. fis_other table command sector count blank b out ∙ ground arith in
    let (len, dir, num) =
      header_kept {m = headed} final at w n
        (λ b l u. outside_fis b (omega arith) ∙ tabled.outside b (omega arith) ∙ ground arith)
        (header_fields at w n s.mem hw (omega arith)) in
    record {
      after = record t { mem = final };
      runs = rw runs refl;
      length = len;
      direction = dir;
      entries = num;
      from_host = (type, c);
      commanded = cmd;
      sector_named = sec;
      count_named = cnt;
      linked = (
        peek_same headed final (at + 8)
              (λ b l u. outside_fis b (omega arith) ∙ tabled.outside b (omega arith) ∙ ground arith)
            ∙ (header_links at w n s.mem).0,
        peek_same headed final (at + 12)
              (λ b l u. outside_fis b (omega arith) ∙ tabled.outside b (omega arith) ∙ ground arith)
            ∙ (header_links at w n s.mem).1,
      );
      pieces = λ j h.
          let e : 0 + j ≡ j = omega arith in
          rw e at (
            Describes-kept final (tabled.entries j h) (λ b l u. outside_fis b (inr (omega arith))));
    }
