-- ===== src/Pci.antt =====
-- kernel/src/pci/pci.c, and the PCI readers of kernel/src/storage/ahci.c.
pub mod Laws
pub mod Asked
use dos_kernel.Common.{
  ℕ, ◌+◌, ◌*◌, ◌≡◌, Bool, ◌&&◌, bit_and, bit_or, u8, u16, u32, ◌<<<◌, ◌>>>◌, ◌==◌, if◌then◌else◌,
}
use dos_kernel.Ports.{Device, Io, pure, ◌>>=◌, ◌>>◌, outl, inl}

pub config_address : ℕ → ℕ → ℕ → ℕ → ℕ
config_address bus slot func offset =
    bit_or (bit_or (bit_or (bit_or (1 <<< 31) (bus <<< 16)) (slot <<< 11)) (func <<< 8))
      (bit_and offset 0xfc)

module _ (dev : Device) where
  pub read_config_dword : ℕ → ℕ → ℕ → ℕ → Io ℕ
  read_config_dword bus slot func offset = do
    outl 0xcf8 (config_address bus slot func offset)
    inl dev 0xcfc

  pub read_config_word : ℕ → ℕ → ℕ → ℕ → Io ℕ
  unfolding read_config_dword
  read_config_word bus slot func offset = do
    value ← read_config_dword bus slot func (bit_and offset 0xfc)
    pure (u16 (value >>> (bit_and offset 2 * 8)))

  pub read_config_byte : ℕ → ℕ → ℕ → ℕ → Io ℕ
  unfolding read_config_dword
  read_config_byte bus slot func offset = do
    value ← read_config_dword bus slot func (bit_and offset 0xfc)
    pure (u8 (value >>> (bit_and offset 3 * 8)))

  -- pci_read_bar64 of ahci.c: 0 for a BAR in I/O space.
  pub read_bar64 : ℕ → ℕ → ℕ → ℕ → Io ℕ
  unfolding read_config_dword
  read_bar64 bus slot func offset = do
    low ← read_config_dword bus slot func offset
    if bit_and low 1 == 1 then pure 0 else do
      addr_high ← read_config_dword bus slot func (u8 (offset + 4))
      pure (bit_or (addr_high <<< 32) (bit_and low 0xfffffff0))

  pub is_ahci_device : ℕ → ℕ → ℕ → Io Bool
  unfolding read_config_byte
  is_ahci_device bus slot func = do
    class_code ← read_config_byte bus slot func 0x0b
    subclass ← read_config_byte bus slot func 0x0a
    prog_if ← read_config_byte bus slot func 0x09
    pure (class_code == 0x01 && (subclass == 0x06 && prog_if == 0x01))

pub write_config_dword : ℕ → ℕ → ℕ → ℕ → ℕ → Io (Unit {0})
write_config_dword bus slot func offset value = do
  outl 0xcf8 (config_address bus slot func offset)
  outl 0xcfc value
