-- ===== src/Storage/Ahci/Command.antt =====
-- kernel/src/storage/ahci.c: a command in memory, its header, its table and its FIS.
use dos_kernel.Common.{
  ℕ, zero, suc, ◌+◌, ◌-◌, ◌*◌, ◌/◌, ◌%◌, ◌^◌, ◌&&◌, Option, none, some, bit_and, bit_or, u8, u16,
  u32, u64, sub32, sub64, ◌<<<◌, ◌>>>◌, ltb, leb, ◌==◌, if◌then◌else◌, Cmd, ok, pure, ◌>>=◌, ◌>>◌,
}
use dos_kernel.Storage.Ahci.{
  clb, clbu, Port, Bytes, Hba, Registers, poke8, poke16, poke32, peek32, change, memset_zero,
  phys_virt, get_reg,
}

-- The loop of find_cmdslot from slot `i` on, `rounds` slots more; `none` is its -1.
unfoldable pub free_slot : ℕ → ℕ → ℕ → Option ℕ
free_slot zero i slots = none
free_slot (suc rounds) i slots =
    let rest = free_slot rounds (i + 1) slots in
    if bit_and slots (1 <<< i) == 0 then some i else rest

-- The PRDT entry at `entry`, in the order of the assignments: dba, dbau, and the bit fields dbc and i.
unfoldable pub prdt_entry : ℕ → ℕ → ℕ → ℕ → Bytes → Bytes
prdt_entry entry buf_phys entry_bytes last m =
    let dba = poke32 m entry (bit_and buf_phys 0xFFFFFFFF) in
    let dbau = poke32 dba (entry + 4) (buf_phys >>> 32) in
    let word = peek32 dbau (entry + 12) in
    let dbc = poke32 dbau (entry + 12) (word / 2 ^ 22 * 2 ^ 22 + sub32 entry_bytes 1 % 2 ^ 22) in
    poke32 dbc (entry + 12) (peek32 dbc (entry + 12) % 2 ^ 31 + last * 2 ^ 31)

-- `for (i = from; i < prdt_entries; i++)` with `rounds` rounds left.
unfoldable pub prdt_loop : ℕ → ℕ → ℕ → ℕ → ℕ → ℕ → Cmd Hba (Unit {0})
prdt_loop zero cmdtbl prdt_entries i buffer remaining = pure tt
prdt_loop (suc rounds) cmdtbl prdt_entries i buffer remaining =
    let entry_sectors = if ltb 16 remaining then 16 else remaining in
    let entry_bytes = u32 (entry_sectors * 512) in
    (λ s.
      change
        (prdt_entry (cmdtbl + 128 + 16 * i) (sub64 buffer s.offset) entry_bytes
          (if i == prdt_entries - 1 then 1 else 0))
        s)
    >> prdt_loop rounds cmdtbl prdt_entries (i + 1) (u64 (buffer + entry_bytes))
        (u8 (remaining + 2 ^ 8 - entry_sectors))

-- The FIS_REG_H2D at the start of the command table.
unfoldable pub fis : ℕ → ℕ → ℕ → ℕ → Bytes → Bytes
fis cfis command sector count m =
    let m1 =
      poke8 (poke8 (poke8 m cfis 0x27) (cfis + 1) (m (cfis + 1) % 2 ^ 7 + 2 ^ 7)) (cfis + 2)
        command in
    let m2 =
      poke8 (poke8 m1 (cfis + 4) (bit_and (sector >>> 0) 0xFF)) (cfis + 5)
        (bit_and (sector >>> 8) 0xFF) in
    let m3 =
      poke8 (poke8 m2 (cfis + 6) (bit_and (sector >>> 16) 0xFF)) (cfis + 8)
        (bit_and (sector >>> 24) 0xFF) in
    let m4 = poke8 (poke8 (poke8 m3 (cfis + 9) 0) (cfis + 10) 0) (cfis + 7) (1 <<< 6) in
    poke8 (poke8 m4 (cfis + 12) (bit_and count 0xFF)) (cfis + 13) (bit_and (count >>> 8) 0xFF)

-- The command header: cleared but for the address of its table, then length, direction, entries.
unfoldable pub header : ℕ → ℕ → ℕ → Bytes → Bytes
header at w prdt_entries m =
    let ctba = peek32 m (at + 8) in
    let ctbau = peek32 m (at + 12) in
    let blank : Bytes = λ b. if leb at b && ltb b (at + 32) then 0 else m b in
    let linked = poke32 (poke32 blank (at + 8) ctba) (at + 12) ctbau in
    let cfl = poke8 linked at (linked at / 2 ^ 5 * 2 ^ 5 + 20 / 4) in
    let dir = poke8 cfl at (cfl at / 2 ^ 7 * 2 ^ 7 + w * 2 ^ 6 + cfl at % 2 ^ 6) in
    poke32 (poke16 dir (at + 2) (u16 prdt_entries)) (at + 4) 0

module _ (dev : Registers) where
  -- The command of a slot is built in memory: its header, its table, and the FIS.
  unfoldable pub build : Port → ℕ → ℕ → ℕ → ℕ → ℕ → ℕ → ℕ → Cmd Hba (Unit {0})
  build port slot prdt_entries w command sector count buf = do
    list_low ← get_reg dev port clb
    list_high ← get_reg dev port clbu
    list ← phys_virt (bit_or list_low (list_high <<< 32))
    ctba ← (λ s. ok (peek32 s.mem (u64 (list + 32 * slot) + 8)) s)
    ctbau ← (λ s. ok (peek32 s.mem (u64 (list + 32 * slot) + 12)) s)
    change (header (u64 (list + 32 * slot)) w prdt_entries)
    cmdtbl ← phys_virt (bit_or ctba (ctbau <<< 32))
    memset_zero cmdtbl (256 + (prdt_entries - 1) * 16)
    prdt_loop prdt_entries cmdtbl prdt_entries 0 buf count
    memset_zero cmdtbl 20
    change (fis cmdtbl command sector count)
