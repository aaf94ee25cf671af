-- ===== src/Tests/Scan.antt =====
-- The scan of a bus that answers each read with ones.
use dos_kernel.Common.{ℕ, ◌<◌, ◌≡◌, [], ok}
use dos_kernel.Ports.{Device, History}
use dos_kernel.Pci.{config_address}
use dos_kernel.Pci.Asked.{Asked, is_ahci_device-absent}
use dos_kernel.Storage.Ahci.{Registers}
use dos_kernel.Storage.Ahci.Scan.{Scan, ahci_init}
use dos_kernel.Storage.Ahci.Scan.Laws.{Bounded, count, ahci_init-Bounded}
use dos_kernel.Storage.Ahci.Scan.Quiet.{ahci_init-quiet}

abbrev pub ones : Device
ones h port = 0xFFFFFFFF

abbrev pub registers : Registers
registers s port reg = 0

abbrev pub no_ports : Scan → ℕ → ℕ
no_ports s abar = 0

abbrev pub at_boot : Scan
at_boot = record {
  hba = record {
    mem = λ a. 0;
    offset = 0;
    abars = [];
    infos = λ c p. record { type = 0; present = 0 };
    log = [];
  };
  machine = record {
    mem = λ a. 0;
    offset = 0;
    page_list = 0;
    kernel_pml4 = 0;
    free_list = 0;
    heap_top = 0;
    cr3 = 0;
    flushed = [];
  };
  ports = [];
}

ahci_init-Bounded_example :
    Bounded (ahci_init registers ones no_ports 3 at_boot)
    × ((n : ℕ) (t : Scan) → ahci_init registers ones no_ports 3 at_boot ≡ ok n t → n ≡ count t)
ahci_init-Bounded_example = ahci_init-Bounded registers ones no_ports 3 at_boot

ahci_init-quiet_example :
    (ports : History) × (ahci_init registers ones no_ports 3 at_boot
      ≡ ok 0 (record at_boot {
        hba = record at_boot.hba {
          abars = [];
          infos = λ controller port. record { type = 0; present = 0 };
        };
        ports = ports;
      }))
    × ((bus slot : ℕ) → bus < 256 → slot < 32 → Asked (config_address bus slot 0 0) ports)
ahci_init-quiet_example = ahci_init-quiet registers ones no_ports 3 at_boot is_ahci_device-absent
