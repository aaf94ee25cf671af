-- ===== src/Tests/Drivers.antt =====
-- The theorems on transfers, device memory and the heap at concrete values.
use dos_kernel.Common.{ℕ, ◌^◌, ◌-◌, ◌≡◌, arith, [], ◌∷◌, none, ◌==◌, if◌then◌else◌, get_elem?, ok}
use dos_kernel.Storage.Ahci.{Hba, Registers}
use dos_kernel.Storage.Ahci.Command.{free_slot}
use dos_kernel.Storage.Ahci.Transfer.{transfer}
use dos_kernel.Storage.Ahci.Slots.{Lowest, free_slot-Lowest}
use dos_kernel.Storage.Ahci.Laws.{Returns, Status, transfer-Returns}
use dos_kernel.Memory.Machine.{Machine}
use dos_kernel.Memory.Mmio.{Mmio, mmio_write8, mmio_write16, mmio_write32, mmio_write64}
use dos_kernel.Memory.Mmio.Bounds.{Checked, Stores, mmio_write-Checked, mmio_write-Stores}

free_slot-Lowest_example : Lowest 0x17 (free_slot 32 0 0x17)
free_slot-Lowest_example = free_slot-Lowest 0x17

abbrev quiet : Registers
quiet = λ s port reg. 0

abbrev one_controller : Hba
one_controller = record {
  mem = λ a. 0;
  offset = 2 ^ 40;
  abars = 0x7000 ∷ [];
  infos = λ c p. record { type = 0; present = 0 };
  log = [];
}

transfer-Returns_example :
    Returns (Status quiet) (transfer quiet 0 0x25 0 0 5 1 0x9000 one_controller)
    × (◌≡◌ {A = ℕ} 1 0 → transfer quiet 0 0x25 0 0 5 1 0x9000 one_controller ≡ ok 1 one_controller)
    × (get_elem? one_controller.abars 0 ≡ none
        → transfer quiet 0 0x25 0 0 5 1 0x9000 one_controller ≡ ok 1 one_controller)
transfer-Returns_example = transfer-Returns quiet 0 0x25 0 0 5 1 0x9000 one_controller

-- A region of 4096 bytes at 0x100, mapped at 0x20000; and a block of 32 bytes at 0x5000.
abbrev device_words : ℕ → ℕ
device_words a =
    if a == 0x110 then 4096 else if a == 0x108 then 0x20000 else if a == 0x5008 then 32 else 0

abbrev machine : Machine
machine = record {
  mem = device_words;
  offset = 0;
  page_list = 0;
  kernel_pml4 = 0;
  free_list = 0;
  heap_top = 0;
  cr3 = 0;
  flushed = [];
}

abbrev mapped_device : Mmio
mapped_device = record { machine = machine; accesses = [] }

mmio_write-Checked_example :
    Checked 1 0x100 0xFFE 7 mapped_device (mmio_write8 0x100 0xFFE 7 mapped_device)
    × Checked 2 0x100 0xFFE 7 mapped_device (mmio_write16 0x100 0xFFE 7 mapped_device)
    × Checked 4 0x100 0xFFE 7 mapped_device (mmio_write32 0x100 0xFFE 7 mapped_device)
    × Checked 8 0x100 0xFFE 7 mapped_device (mmio_write64 0x100 0xFFE 7 mapped_device)
mmio_write-Checked_example =
    mmio_write-Checked 0x100 0xFFE 7 mapped_device (omega arith) (omega arith) (omega arith)

mmio_write-Stores_example :
    Stores 2 0x1FFFF 7 mapped_device (mmio_write16 0x100 (2 ^ 64 - 1) 7 mapped_device)
    × Stores 4 0x1FFFF 7 mapped_device (mmio_write32 0x100 (2 ^ 64 - 1) 7 mapped_device)
    × Stores 8 0x1FFFF 7 mapped_device (mmio_write64 0x100 (2 ^ 64 - 1) 7 mapped_device)
mmio_write-Stores_example =
    mmio_write-Stores 1 0x100 7 mapped_device (omega arith) (omega arith) (omega arith)
      (omega arith) (omega arith) (omega arith)
