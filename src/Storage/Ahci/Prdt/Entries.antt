-- ===== src/Storage/Ahci/Prdt/Entries.antt =====
-- The entries of the table of memory regions, HBA_PRDT_ENTRY of kernel/include/storage/ahci.h.
use dos_kernel.Common.{
  ℕ, ◌+◌, ◌-◌, ◌*◌, ◌/◌, ◌%◌, ◌^◌, ◌≤◌, ◌<◌, ◌≡◌, refl, ◌∙◌, arith, bit_and, sub32, ◌⊎◌, inl,
}
use dos_kernel.Common.Bits.{bit_and_mask}
use dos_kernel.Storage.Ahci.{Bytes, poke32, peek32}
use dos_kernel.Storage.Ahci.Command.{prdt_entry}

pub record PrdtEntry : Type 0 where
  pub dba : ℕ
  pub dbau : ℕ
  pub dbc : ℕ
  pub i : ℕ

unfoldable pub entry_at : Bytes → ℕ → PrdtEntry
entry_at m a = record {
  dba = peek32 m a;
  dbau = peek32 m (a + 4);
  dbc = peek32 m (a + 12) % 2 ^ 22;
  i = peek32 m (a + 12) / 2 ^ 31;
}

pub peek_poke : (m : Bytes) (a v : ℕ) → peek32 (poke32 m a v) a ≡ v % 2 ^ 32
peek_poke m a v = ground arith

pub poke_other : (m : Bytes) (a v b : ℕ) → (b < a) ⊎ (a + 4 ≤ b) → poke32 m a v b ≡ m b
poke_other m a v b apart = ground arith

pub peek_other :
    (m : Bytes) (a v b : ℕ) → (b + 4 ≤ a) ⊎ (a + 4 ≤ b) → peek32 (poke32 m a v) b ≡ peek32 m b
peek_other m a v b apart = ground arith

-- An entry reads back as what it was made from.
pub record Describes (m : Bytes) (entry phys bytes last : ℕ) : Type 0 where
  pub address : (entry_at m entry).dba + (entry_at m entry).dbau * 2 ^ 32 ≡ phys
  pub length : (entry_at m entry).dbc + 1 ≡ bytes
  pub interrupt : (entry_at m entry).i ≡ last

pub prdt_entry-Describes :
    (entry phys bytes last : ℕ) (m : Bytes)
    → phys < 2 ^ 64
    → 0 < bytes
    → bytes ≤ 2 ^ 22
    → last < 2
    → Describes (prdt_entry entry phys bytes last m) entry phys bytes last
unfolding prdt_entry entry_at
prdt_entry-Describes entry phys bytes last m hp hb hb' hl =
    let low = bit_and phys 0xFFFFFFFF in
    let dba = poke32 m entry low in
    let dbau = poke32 dba (entry + 4) (phys / 2 ^ 32) in
    let x = peek32 dbau (entry + 12) / 2 ^ 22 * 2 ^ 22 + sub32 bytes 1 % 2 ^ 22 in
    let dbc = poke32 dbau (entry + 12) x in
    let y = peek32 dbc (entry + 12) % 2 ^ 31 + last * 2 ^ 31 in
    let low_eq : low ≡ phys % 2 ^ 32 = bit_and_mask 32 phys in
    let first : peek32 (poke32 dbc (entry + 12) y) entry ≡ phys % 2 ^ 32 =
      peek_other dbc (entry + 12) y entry (inl (omega arith))
      ∙ peek_other dbau (entry + 12) x entry (inl (omega arith))
      ∙ peek_other dba (entry + 4) (phys / 2 ^ 32) entry (inl (omega arith))
      ∙ peek_poke m entry low
      ∙ rw low_eq (omega arith) in
    let second : peek32 (poke32 dbc (entry + 12) y) (entry + 4) ≡ phys / 2 ^ 32 =
      peek_other dbc (entry + 12) y (entry + 4) (inl (omega arith))
      ∙ peek_other dbau (entry + 12) x (entry + 4) (inl (omega arith))
      ∙ peek_poke dba (entry + 4) (phys / 2 ^ 32)
      ∙ omega arith in
    let inner = peek_poke dbau (entry + 12) x in
    let third = peek_poke dbc (entry + 12) y in
    let minus : sub32 bytes 1 ≡ bytes - 1 = ground arith in
    record {
      address = rw (first, second) (omega arith);
      length = rw third (omega (arith, inner, minus));
      interrupt = rw third (omega (arith, inner, minus));
    }

pub prdt_entry-other :
    (entry phys bytes last : ℕ) (m : Bytes) (b : ℕ)
    → (b < entry) ⊎ (entry + 16 ≤ b)
    → prdt_entry entry phys bytes last m b ≡ m b
unfolding prdt_entry
prdt_entry-other entry phys bytes last m b h =
    let dba = poke32 m entry (bit_and phys 0xFFFFFFFF) in
    let dbau = poke32 dba (entry + 4) (phys / 2 ^ 32) in
    let x = peek32 dbau (entry + 12) / 2 ^ 22 * 2 ^ 22 + sub32 bytes 1 % 2 ^ 22 in
    let dbc = poke32 dbau (entry + 12) x in
    poke_other dbc (entry + 12) (peek32 dbc (entry + 12) % 2 ^ 31 + last * 2 ^ 31) b (omega arith)
    ∙ poke_other dbau (entry + 12) x b (omega arith)
    ∙ poke_other dba (entry + 4) (phys / 2 ^ 32) b (omega arith)
    ∙ poke_other m entry (bit_and phys 0xFFFFFFFF) b (omega arith)

-- A structure that no later write reaches.
pub Describes-kept :
    {m : Bytes} (g : Bytes) {entry phys bytes last : ℕ}
    → Describes m entry phys bytes last
    → ((b : ℕ) → entry ≤ b → b < entry + 16 → g b ≡ m b)
    → Describes g entry phys bytes last
unfolding entry_at
Describes-kept {m} g {entry} d kept =
    let word : (k : ℕ) → k ≤ 12 → peek32 g (entry + k) ≡ peek32 m (entry + k) = λ k h.
      rw
        (
          kept (entry + k) (omega arith) (omega arith),
          kept (entry + k + 1) (omega arith) (omega arith),
          kept (entry + k + 2) (omega arith) (omega arith),
          kept (entry + k + 3) (omega arith) (omega arith),
        )
        refl in
    let zeroth : entry + 0 ≡ entry = omega arith in
    let first : peek32 g entry ≡ peek32 m entry = rw zeroth at (word 0 (omega arith)) in
    record {
      address = rw (first, word 4 (omega arith)) d.address;
      length = rw (word 12 (omega arith)) d.length;
      interrupt = rw (word 12 (omega arith)) d.interrupt;
    }
