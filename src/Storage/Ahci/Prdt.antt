-- ===== src/Storage/Ahci/Prdt.antt =====
-- The table of memory regions of a command as the controller reads it, HBA_PRDT_ENTRY of
-- kernel/include/storage/ahci.h, and how it describes the buffer of a transfer.
mod Entries
unfoldable pub use Entries.*
use dos_kernel.Common.{
  ℕ, zero, suc, ◌+◌, ◌-◌, ◌*◌, ◌/◌, ◌%◌, ◌^◌, ◌≤◌, ◌<◌, ◌≡◌, refl, ap, ◌∙◌, arith, bit_and, u8, u32,
  u64, sub32, sub64, ltb, ◌==◌, if◌then◌else◌, ◌⊎◌, inl, ok,
}
use dos_kernel.Common.Bits.{bit_and_mask}
use dos_kernel.Storage.Ahci.{Bytes, Hba, poke32, peek32}
use dos_kernel.Storage.Ahci.Command.{prdt_entry, prdt_loop}

-- The bytes of piece `j` of a buffer of `sectors` sectors.
abbrev pub piece : ℕ → ℕ → ℕ
piece sectors j = if ltb 16 (sectors - 16 * j) then 8192 else (sectors - 16 * j) * 512

-- A run that writes entries for the pieces of the buffer at `buffer`, from the entry number `i` of `n` on, and
-- changes no other memory.
pub record Tabled (table n i rounds buffer sectors : ℕ) (s t : Hba) : Type 0 where
  pub rest : t ≡ record s { mem = t.mem }
  pub entries :
      (j : ℕ)
      → j < rounds
      → Describes t.mem
          (table + 128 + 16 * (i + j))
          (sub64 (buffer + j * 8192) s.offset)
          (piece sectors j)
          (if i + j == n - 1 then 1 else 0)
  pub outside :
      (b : ℕ)
      → (b < table + 128 + 16 * i) ⊎ (table + 128 + 16 * (i + rounds) ≤ b)
      → t.mem b ≡ s.mem b

-- The memory behind the entry number `i`.
abbrev stepped : ℕ → ℕ → ℕ → ℕ → ℕ → Hba → Hba
stepped table n i buffer sectors s = record s {
  mem =
      prdt_entry (table + 128 + 16 * i) (sub64 buffer s.offset) (piece sectors 0)
        (if i == n - 1 then 1 else 0) s.mem;
}

prdt_step :
    (rounds table n i buffer sectors : ℕ) (s : Hba)
    → sectors < 2 ^ 8
    → buffer + sectors * 512 < 2 ^ 64
    → prdt_loop (suc rounds) table n i buffer sectors s
      ≡ prdt_loop rounds table n
          (i + 1)
          (buffer + piece sectors 0)
          (sectors - 16)
          (stepped table n i buffer sectors s)
unfolding prdt_loop
prdt_step rounds table n i buffer sectors s small fits =
    let entry_sectors = if ltb 16 sectors then 16 else sectors in
    let bytes : u32 (entry_sectors * 512) ≡ piece sectors 0 = ground arith in
    let next : u64 (buffer + piece sectors 0) ≡ buffer + piece sectors 0 = ground arith in
    let left : u8 (sectors + 2 ^ 8 - entry_sectors) ≡ sectors - 16 = ground arith in
    rw (bytes, next, left) refl

prdt_loop-Tabled :
    (rounds table n i buffer sectors : ℕ) (s : Hba)
    → sectors ≤ 16 * rounds
    → 16 * rounds < sectors + 16
    → sectors < 2 ^ 8
    → buffer + sectors * 512 < 2 ^ 64
    → (t : Hba) × (prdt_loop rounds table n i buffer sectors s ≡ ok tt t)
      × Tabled table n i rounds buffer sectors s t
unfolding prdt_loop
prdt_loop-Tabled zero table n i buffer sectors s few many small fits =
    (s, refl, record { rest = refl; entries = λ j h. absurd (omega arith); outside = λ b h. refl })
prdt_loop-Tabled (suc rounds) table n i buffer sectors s few many small fits =
    let e = table + 128 + 16 * i in
    let (t, runs, ih) =
      prdt_loop-Tabled rounds table n (i + 1) (buffer + piece sectors 0) (sectors - 16)
        (stepped table n i buffer sectors s) (omega arith) (omega arith) (omega arith)
        (ground arith) in
    (
      t,
      prdt_step rounds table n i buffer sectors s small fits ∙ runs,
      record {
        rest = ih.rest;
        entries = at t ih;
        outside = λ b h.
            ih.outside b (omega arith)
            ∙ prdt_entry-other e (sub64 buffer s.offset) (piece sectors 0)
                (if i == n - 1 then 1 else 0) s.mem b (omega arith);
      },
    )
  where
    at :
        (t : Hba)
        → Tabled table n
            (i + 1)
            rounds
            (buffer + piece sectors 0)
            (sectors - 16)
            (stepped table n i buffer sectors s)
            t
        → (j : ℕ) → j < suc rounds
        → Describes t.mem
            (table + 128 + 16 * (i + j))
            (sub64 (buffer + j * 8192) s.offset)
            (piece sectors j)
            (if i + j == n - 1 then 1 else 0)
    at t ih zero h =
        let here : (i + 0 ≡ i) × (buffer + 0 * 8192 ≡ buffer) = omega arith in
        let e = table + 128 + 16 * i in
        let some_bytes : 0 < piece sectors 0 = ground arith in
        let few_bytes : piece sectors 0 ≤ 2 ^ 22 = ground arith in
        let flag : (if i == n - 1 then 1 else 0) < 2 = ground arith in
        rw (here.0, here.1)
          (Describes-kept t.mem
            (prdt_entry-Describes e (sub64 buffer s.offset) (piece sectors 0)
              (if i == n - 1 then 1 else 0) s.mem (omega arith) some_bytes few_bytes flag)
            (λ b l u. ih.outside b (inl (omega arith))))
    at t ih (suc j) h =
        let full : piece sectors 0 ≡ 8192 = ground arith in
        let place : i + suc j ≡ i + 1 + j = omega arith in
        let address : buffer + suc j * 8192 ≡ buffer + piece sectors 0 + j * 8192 =
          omega (arith, full) in
        let size : piece sectors (suc j) ≡ piece (sectors - 16) j =
          ap (λ x. if ltb 16 x then 8192 else x * 512) (omega arith) in
        rw (place, address, size) (ih.entries j (omega arith))

-- prdt_loop fills the table of a command with one entry for each 16 sectors of the buffer, in order: each gives the
-- physical address of its piece and its length, the last one alone asks for an interrupt, and no
-- other memory changes. The buffer has at most 128 sectors and does not wrap.
pub prdt_loop-buffer :
    (table buffer count : ℕ) (s : Hba)
    → count ≤ 128
    → buffer + count * 512 < 2 ^ 64
    → let n = (count + 15) / 16 in
      (t : Hba) × (prdt_loop n table n 0 buffer count s ≡ ok tt t)
      × Tabled table n 0 n buffer count s t
prdt_loop-buffer table buffer count s few fits =
    let n = (count + 15) / 16 in
    prdt_loop-Tabled n table n 0 buffer count s (omega arith) (omega arith) (omega arith) fits
