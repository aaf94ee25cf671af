-- ===== src/Boot.antt =====
-- kernel/src/main.c: kmain, the order in which the parts are set up. The answers of the boot loader, the addresses
-- of the static objects and the devices are parameters, each part's as that part takes them.
pub mod Prepared
pub mod Laws
use dos_kernel.Common.{
  ℕ, Bool, true, not, Option, List, [], ◌∷◌, ◌++◌, if◌then◌else◌, Run, Cmd, ok, panicked,
  out_of_fuel, pure, ◌>>=◌, ◌>>◌,
}
use dos_kernel.Ports.{Device, History}
use dos_kernel.Memory.Machine.{Machine, hhdm_init}
use dos_kernel.Memory.Frame.{MemmapEntry, frame_init}
use dos_kernel.Memory.Paging.{paging_init}
use dos_kernel.X86.Gdt.{Gdt, gdt_init}
use dos_kernel.X86.Idt.{Idt, idt_init}
use dos_kernel.X86.Apic.{Apic, memory, enable_apic, apic_timer_init}
use dos_kernel.Storage.Ahci.{Hba, Registers}
use dos_kernel.Storage.Ahci.Scan.{Scan, ahci_init}
use dos_kernel.Fs.Fat16.Env.{Env}
use dos_kernel.Fs.Fat16.Format.{ahci}
use dos_kernel.Fs.Fat16.Mount.{Mounts, fat16_init}
use dos_kernel.Logging.Printk.{
  ℤ, pos, Framebuffer, Log, codes, newline, log_debug, log_info, log_fatal, printk_init,
  printk_level,
}

-- What the boot loader answers, and whether it has the base revision.
pub record Loader : Type 0 where
  pub supported : Bool
  pub framebuffers : Option (List Framebuffer)
  pub offset : ℕ
  pub usable : ℕ
  pub map : List MemmapEntry

-- The addresses of static objects, and of the stubs of isr.asm.
pub record Image : Type 0 where
  pub entries_at : ℕ
  pub tss_at : ℕ
  pub stack_at : ℕ
  pub table_at : ℕ
  pub stubs : ℕ → ℕ

pub record Devices : Type 0 where
  pub apic : Apic → ℕ → ℕ
  pub registers : Registers
  pub pci : Device
  pub implemented : Scan → ℕ → ℕ
  pub env : Env

-- The state of all parts. The memory part's is the one in `apic`.
pub record System (T : Type 0) : Type 0 where
  pub log : Log T
  pub gdt : Gdt
  pub idt : Idt
  pub apic : Apic
  pub hba : Hba
  pub ports : History
  pub mounts : Mounts

-- Where kmain stops for good.
pub data Halt : Type 0 where
  unsupported : Halt
  complete : Halt

module _ {T : Type 0} where
  abbrev pub in_apic : {A : Type 0} → Run Apic A → System T → Run (System T) A
  in_apic (ok a x) s = ok a (record s { apic = x })
  in_apic panicked s = panicked
  in_apic out_of_fuel s = out_of_fuel

  abbrev pub on_apic : {A : Type 0} → Cmd Apic A → Cmd (System T) A
  on_apic c s = in_apic (c s.apic) s

  abbrev pub on_memory : {A : Type 0} → Cmd Machine A → Cmd (System T) A
  on_memory c = on_apic (memory c)

  abbrev pub in_scan : {A : Type 0} → Run Scan A → System T → Run (System T) A
  in_scan (ok a x) s =
      ok a (record s { hba = x.hba; ports = x.ports; apic = record s.apic { machine = x.machine } })
  in_scan panicked s = panicked
  in_scan out_of_fuel s = out_of_fuel

  -- The driver of the disks reads the same `offset`.
  abbrev pub on_scan : {A : Type 0} → Cmd Scan A → Cmd (System T) A
  on_scan c s =
      let m = s.apic.machine in
      in_scan
        (c (record { hba = record s.hba { offset = m.offset }; machine = m; ports = s.ports })) s

  abbrev pub in_mounts : {A : Type 0} → Run Mounts A → System T → Run (System T) A
  in_mounts (ok a x) s = ok a (record s { mounts = x })
  in_mounts panicked s = panicked
  in_mounts out_of_fuel s = out_of_fuel

  abbrev pub on_mounts : {A : Type 0} → Cmd Mounts A → Cmd (System T) A
  on_mounts c s = in_mounts (c s.mounts) s

  abbrev pub cli : Cmd (System T) (Unit {0})
  cli s = ok tt (record s { idt = record s.idt { interrupts = 0 } })

module _ {T Args : Type 0} (flanterm_fb_init : Framebuffer → T) (flanterm_write : ℕ → T → T)
    (format : (ℕ → Log T → Log T) → List ℕ → Args → Log T → Log T) (no_args revision : Args)
    (loader : Loader) (image : Image) (devices : Devices) where
  abbrev pub message : ℕ → List ℕ → Args → Cmd (System T) (Unit {0})
  message level text args s = ok tt (record s {
    log = printk_level flanterm_write format (pos level) (text ++ newline ∷ []) args s.log;
  })

  abbrev pub info : List ℕ → Cmd (System T) (Unit {0})
  info text = message log_info text no_args

  unfoldable pub init_tables : Cmd (System T) (Unit {0})
  init_tables = do
    (λ s. ok tt (record s { gdt = gdt_init image.entries_at image.tss_at image.stack_at s.gdt }))
    info (codes "GDT initialized")
    (λ s. ok tt (record s { idt = idt_init image.stubs image.table_at s.idt }))
    info (codes "IDT initialized")

  unfoldable pub init_memory : Cmd (System T) (Unit {0})
  init_memory = do
    on_memory (hhdm_init loader.offset)
    info (codes "HHDM initialized")
    on_memory (frame_init loader.usable loader.map)
    info (codes "Frame allocator initialized")
    on_memory paging_init
    info (codes "Paging initialized")

  -- `fuel` bounds the waits for the interval timer and for the disks.
  unfoldable pub init_devices : ℕ → Cmd (System T) (Unit {0})
  init_devices fuel = do
    on_apic (enable_apic devices.apic true)
    info (codes "APIC enabled")
    on_apic (apic_timer_init devices.apic fuel 1000)
    info (codes "APIC timer initialized at 1000 Hz")
    count ← on_scan (ahci_init devices.registers devices.pci devices.implemented fuel)
    info (codes "AHCI initialized")
    status ← on_mounts (fat16_init devices.env 0 0 ahci)
    info (codes "FAT16 initialized")

  unfoldable pub kmain : ℕ → Cmd (System T) Halt
  kmain fuel = do
    cli
    (λ s. ok tt (record s { log = printk_init flanterm_fb_init loader.framebuffers s.log }))
    if not loader.supported
        then (do
          message log_fatal (codes "Bootloader does not support base revision: %lu") revision
          pure unsupported)
        else do
          info (codes "Bootloader base revision OK")
          init_tables
          init_memory
          init_devices fuel
          message log_debug (codes "Kernel init complete, halting") no_args
          pure complete
