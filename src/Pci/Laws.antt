-- ===== src/Pci/Laws.antt =====
-- The address word of the PCI configuration space, field by field, and the narrow reads.
use dos_kernel.Common.{ℕ, ◌+◌, ◌*◌, ◌/◌, ◌%◌, ◌^◌, ◌<◌, ◌≡◌, refl, arith, bit_and, u8, u32, ◌∷◌}
use dos_kernel.Common.Bits.{bit_and_split, bit_or_fields, bit_and_mask, bit_and-zero}
use dos_kernel.Ports.{Device, History, out32}
use dos_kernel.Pci.{config_address, read_config_dword, read_config_byte}

low_two : (offset : ℕ) → offset < 256 → bit_and offset 0xfc ≡ offset / 4 * 4
low_two offset h = ground (
  arith,
  bit_and_split 2 (offset / 4) (offset % 4) 63 0,
  bit_and_mask 6 (offset / 4),
  bit_and-zero (offset % 4),
)

-- The configuration address of a register is the sum of its fields.
pub config_address_fields :
    (bus slot func offset : ℕ)
    → bus < 256
    → slot < 32
    → func < 8
    → offset < 256
    → config_address bus slot func offset
      ≡ 2 ^ 31 + bus * 2 ^ 16 + slot * 2 ^ 11 + func * 2 ^ 8 + offset / 4 * 4
unfolding config_address
config_address_fields bus slot func offset hb hs hf ho = ground (
  arith,
  low_two offset,
  bit_or_fields 31 1 (bus * 2 ^ 16),
  bit_or_fields 16 (2 ^ 15 + bus) (slot * 2 ^ 11),
  bit_or_fields 11 (2 ^ 20 + bus * 2 ^ 5 + slot) (func * 2 ^ 8),
  bit_or_fields 8 (2 ^ 23 + bus * 2 ^ 8 + slot * 2 ^ 3 + func) (offset / 4 * 4),
)

byte_in_dword :
    (q i : ℕ) → q < 64 → i < 4 → (bit_and (4 * q + i) 3 ≡ i) × (bit_and (4 * q + i) 0xfc ≡ 4 * q)
byte_in_dword q i hq hi = ground (arith, bit_and_mask 2 (4 * q + i), low_two (4 * q + i))

module _ (dev : Device) (reg : ℕ → ℕ)
    -- The device answers by the address that was written last.
    (answers : (a : ℕ) (h : History) → dev (out32 0xcf8 a ∷ h) 0xcfc ≡ reg a) (bus slot func : ℕ)
    (h : History) where
  config_byte :
      (q i s : ℕ)
      → q < 64
      → i < 4
      → i * 8 ≡ s
      → (read_config_byte dev bus slot func (4 * q + i) h).0
        ≡ u8 (u32 (reg (config_address bus slot func (4 * q))) / 2 ^ s)
  unfolding read_config_byte
  config_byte q i s hq hi e =
      rw ((byte_in_dword q i hq hi).0, (byte_in_dword q i hq hi).1, e, answers) refl

  -- The four bytes of a configuration register are the dword, the lowest first.
  pub dword-bytes :
      (q : ℕ)
      → q < 64
      → (read_config_dword dev bus slot func (4 * q) h).0
        ≡ (read_config_byte dev bus slot func (4 * q + 0) h).0
          + (read_config_byte dev bus slot func (4 * q + 1) h).0 * 2 ^ 8
          + (read_config_byte dev bus slot func (4 * q + 2) h).0 * 2 ^ 16
          + (read_config_byte dev bus slot func (4 * q + 3) h).0 * 2 ^ 24
  unfolding read_config_dword
  dword-bytes q hq =
      rw
        (
          answers,
          config_byte q 0 0 hq (omega arith) refl,
          config_byte q 1 8 hq (omega arith) refl,
          config_byte q 2 16 hq (omega arith) refl,
          config_byte q 3 24 hq (omega arith) refl,
        )
        (omega arith)
