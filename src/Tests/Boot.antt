-- ===== src/Tests/Boot.antt =====
-- The memory part at boot, with one usable entry of 3072 frames and a reserved one of a broken page.
use dos_kernel.Common.{ℕ, ◌+◌, ◌*◌, refl, arith, true, List, [], ◌∷◌, none}
use dos_kernel.Memory.Machine.{Machine}
use dos_kernel.Memory.Frame.Init.{usable_frames}
use dos_kernel.Tests.Hardware.{boot_gdt, boot_idt}
use dos_kernel.Tests.Fat16.{steady_env, no_mounts}
use dos_kernel.Tests.Output.{keep, plain_format, no_output}
use dos_kernel.Tests.Scan.{ones, registers, no_ports, at_boot}
use dos_kernel.Boot.{Loader, Image, Devices, System, kmain}
use dos_kernel.Boot.Laws.{Reached, remaining, kmain-Reached}

abbrev window : ℕ
window = 0xFFFF800000000000

abbrev loader : Loader
loader = record {
  supported = true;
  framebuffers = none;
  offset = window;
  usable = 0;
  map =
      record { base = 0x100000; length = 0xC00000; type = 0 }
      ∷ record { base = 0xFD000000; length = 0x400; type = 1 }
      ∷ [];
}

abbrev image : Image
image = record {
  entries_at = 0x6000;
  tss_at = 0x7000;
  stack_at = 0x8000;
  table_at = 0x5000;
  stubs = λ v. 0xFFFFFFFF80001000 + 16 * v;
}

abbrev devices : Devices
devices = record {
  apic = λ s a. 0;
  registers = registers;
  pci = ones;
  implemented = no_ports;
  env = steady_env;
}

abbrev memory : Machine
memory = record at_boot.machine { cr3 = 0x1000 }

abbrev system : System (List ℕ)
system = record {
  log = no_output;
  gdt = boot_gdt;
  idt = boot_idt;
  apic = record {
    machine = memory;
    msr = 0;
    apic_virt = 0;
    ioapic_virt = 0;
    apic_space = 0;
    log = [];
  };
  hba = at_boot.hba;
  ports = [];
  mounts = no_mounts;
}

kmain-Reached_example :
    Reached image window
      (usable_frames 0 loader.map [])
      (remaining (λ fb. []) keep plain_format [] [] loader image devices 5)
      system
      (kmain (λ fb. []) keep plain_format [] [] loader image devices 5 system)
kmain-Reached_example =
    kmain-Reached (λ fb. []) keep plain_format [] [] loader image devices 5 system refl
      (λ y. (omega arith, refl, omega arith), (λ y. ground arith, tt)) refl
