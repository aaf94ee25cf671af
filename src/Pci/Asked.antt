-- ===== src/Pci/Asked.antt =====
-- Which registers of the configuration space a history asked for.
use dos_kernel.Common.{ℕ, ◌∷◌, ◌≡◌, refl, false}
use dos_kernel.Ports.{Device, History, Access, out32}
use dos_kernel.Pci.{
  config_address, read_config_dword, read_config_word, read_config_byte, is_ahci_device,
}

-- The configuration register with this address was asked for.
pub data Asked (a : ℕ) : History → Type 0 where
  now : {h : History} → Asked a (out32 0xcf8 a ∷ h)
  before : {x : Access} {h : History} → Asked a h → Asked a (x ∷ h)

module _ (dev : Device) (bus slot func : ℕ) (h : History) where
  pub read_config_word-asks :
      Asked (config_address bus slot func 0) (read_config_word dev bus slot func 0 h).1
  unfolding read_config_word read_config_dword
  read_config_word-asks = Asked.before Asked.now

  pub read_config_word-keeps :
      (offset a : ℕ) → Asked a h → Asked a (read_config_word dev bus slot func offset h).1
  unfolding read_config_word read_config_dword
  read_config_word-keeps offset a asked = Asked.before (Asked.before asked)

  pub read_config_byte-keeps :
      (offset a : ℕ) → Asked a h → Asked a (read_config_byte dev bus slot func offset h).1
  unfolding read_config_byte read_config_dword
  read_config_byte-keeps offset a asked = Asked.before (Asked.before asked)

  pub is_ahci_device-keeps : (a : ℕ) → Asked a h → Asked a (is_ahci_device dev bus slot func h).1
  unfolding is_ahci_device read_config_byte read_config_dword
  is_ahci_device-keeps a asked =
      Asked.before (Asked.before (Asked.before (Asked.before (Asked.before (Asked.before asked)))))

-- Where no device answers, a read gives ones, and no controller is found.
pub is_ahci_device-absent :
    (bus slot func : ℕ) (h : History)
    → (is_ahci_device (λ h port. 0xFFFFFFFF) bus slot func h).0 ≡ false
unfolding is_ahci_device read_config_byte read_config_dword
is_ahci_device-absent bus slot func h = refl
