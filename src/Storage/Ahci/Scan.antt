-- ===== src/Storage/Ahci/Scan.antt =====
-- kernel/src/storage/ahci.c: the scan of the PCI bus in ahci_init. The registers of the ports, the answers of the
-- configuration space, and the register of a controller that names its ports are parameters.
pub mod Laws
pub mod Quiet
use dos_kernel.Common.{
  ℕ, zero, suc, ◌+◌, ◌==◌, bit_and, Bool, not, List, [], ◌∷◌, ◌++◌, length, ltb, leb, u64,
  if◌then◌else◌, Run, Cmd, ok, panicked, out_of_fuel, pure, ◌>>=◌, ◌>>◌,
}
use dos_kernel.Ports.{Device, History, Io}
use dos_kernel.Pci.{read_config_word, read_config_byte, read_bar64, is_ahci_device}
use dos_kernel.Memory.Machine.{Machine, phys_virt}
use dos_kernel.Memory.Paging.{
  paging_get_current_pml4, paging_map_page, entry_flag_present, entry_flag_rw,
}
use dos_kernel.Storage.Ahci.{Hba, Registers, ahci_base}
use dos_kernel.Storage.Ahci.Ports.{ahci_probe_ports}

-- The state of the parts that take part in the scan.
pub record Scan : Type 0 where
  pub hba : Hba
  pub machine : Machine
  pub ports : History

abbrev pub on_ports : {A : Type 0} → Io A → Cmd Scan A
on_ports m s = ok (m s.ports).0 (record s { ports = (m s.ports).1 })

abbrev pub in_memory : {A : Type 0} → Run Machine A → Scan → Run Scan A
in_memory (ok a m) s = ok a (record s { machine = m })
in_memory panicked s = panicked
in_memory out_of_fuel s = out_of_fuel

abbrev pub on_memory : {A : Type 0} → Cmd Machine A → Cmd Scan A
on_memory c s = in_memory (c s.machine) s

abbrev pub in_hba : {A : Type 0} → Run Hba A → Scan → Run Scan A
in_hba (ok a h) s = ok a (record s { hba = h })
in_hba panicked s = panicked
in_hba out_of_fuel s = out_of_fuel

abbrev pub on_hba : {A : Type 0} → Cmd Hba A → Cmd Scan A
on_hba c s = in_hba (c s.hba) s

abbrev pub max_controllers : ℕ
max_controllers = 8

-- `memset(&g_ahci, 0, ...)`, and no controllers.
unfoldable pub reset : Cmd Scan (Unit {0})
reset s = ok tt (record s {
  hba = record s.hba { abars = []; infos = λ controller port. record { type = 0; present = 0 } };
})

module _ (dev : Registers) (pci : Device) (pi : Scan → ℕ → ℕ) where
  -- The registers at `abar_phys` are mapped, with the memory of the driver, and the ports are probed. The
  -- controller counts from the increment of g_abar_count on.
  unfoldable pub add_controller : ℕ → ℕ → Cmd Scan (Unit {0})
  add_controller fuel abar_phys = do
    abar_virt ← (λ s. ok (phys_virt s.machine.offset abar_phys) s)
    pml4 ← on_memory paging_get_current_pml4
    on_memory (paging_map_page pml4 abar_virt abar_phys 0x1000 (entry_flag_present + entry_flag_rw))
    base_virt ← (λ s. ok (phys_virt s.machine.offset ahci_base) s)
    on_memory
        (paging_map_page pml4 base_virt ahci_base 0x4A000 (entry_flag_present + entry_flag_rw))
    ctrl_idx ← (λ s. ok (length s.hba.abars) s)
    (λ s. on_hba (ahci_probe_ports dev fuel (pi s abar_virt) abar_virt ctrl_idx) s)
    (λ s. ok tt (record s { hba = record s.hba { abars = s.hba.abars ++ abar_virt ∷ [] } }))

  -- The tests of a function that is there.
  unfoldable pub take_device : ℕ → ℕ → ℕ → ℕ → Cmd Scan (Unit {0})
  take_device fuel bus slot func = do
    is_ahci ← on_ports (is_ahci_device pci bus slot func)
    if not is_ahci then pure tt else do
      abar_phys ← on_ports (read_bar64 pci bus slot func 0x24)
      if abar_phys == 0 then pure tt else do
        count ← (λ s. ok (length s.hba.abars) s)
        if leb max_controllers count then pure tt else add_controller fuel abar_phys

  -- `if (func == 0)`: the number of functions of the device.
  unfoldable pub func_limit : ℕ → ℕ → ℕ → ℕ → Cmd Scan ℕ
  func_limit bus slot func limit =
      if func == 0
      then (do
        header_type ← on_ports (read_config_byte pci bus slot func 0x0e)
        pure (if bit_and header_type 0x80 == 0 then limit else 8))
      else pure limit

  -- The body of the loop over the functions, with the limit that it leaves.
  unfoldable pub visit : ℕ → ℕ → ℕ → ℕ → ℕ → Cmd Scan ℕ
  visit fuel bus slot func limit = do
    vendor ← on_ports (read_config_word pci bus slot func 0)
    if vendor == 0xffff
        then pure limit
        else do next ← func_limit bus slot func limit; take_device fuel bus slot func; pure next

  -- `for (func = from; func < func_limit; func++)`, with at most `rounds` tests.
  unfoldable pub func_loop : ℕ → ℕ → ℕ → ℕ → ℕ → ℕ → Cmd Scan (Unit {0})
  func_loop zero fuel bus slot func limit = λ _. out_of_fuel
  func_loop (suc rounds) fuel bus slot func limit =
      let body = (do
        next ← visit fuel bus slot func limit
        func_loop rounds fuel bus slot (func + 1) next) in
      if ltb func limit then body else pure tt

  -- `for (slot = from; rounds more; slot++)`
  unfoldable pub slot_loop : ℕ → ℕ → ℕ → ℕ → Cmd Scan (Unit {0})
  slot_loop zero fuel bus slot = pure tt
  slot_loop (suc rounds) fuel bus slot = do
    func_loop 9 fuel bus slot 0 1
    slot_loop rounds fuel bus (slot + 1)

  -- `for (bus = from; rounds more; bus++)`
  unfoldable pub bus_loop : ℕ → ℕ → ℕ → Cmd Scan (Unit {0})
  bus_loop zero fuel bus = pure tt
  bus_loop (suc rounds) fuel bus = do slot_loop 32 fuel bus 0; bus_loop rounds fuel (bus + 1)

  -- `fuel` bounds the waits for a controller.
  unfoldable pub ahci_init : ℕ → Cmd Scan ℕ
  ahci_init fuel = do reset; bus_loop 256 fuel 0; λ s. ok (length s.hba.abars) s
