-- ===== src/X86/Apic.antt =====
-- kernel/src/x86_64/apic.c with kernel/include/x86_64/apic.h: the local APIC, its timer and the I/O APIC.
-- What their registers and the interval timer answer are parameters, functions of the state.
pub mod Laws
use dos_kernel.Common.{
  ℕ, zero, suc, ◌+◌, ◌-◌, ◌*◌, ◌/◌, ◌^◌, Bool, not, List, [], ◌∷◌, bit_and, bit_or, u8, u16, u32,
  u64, sub32, ◌<<<◌, ◌>>>◌, ltb, leb, ◌==◌, if◌then◌else◌, Run, Cmd, ok, panicked, out_of_fuel,
  pure, assert, ◌>>=◌, ◌>>◌,
}
use dos_kernel.Memory.Machine.{Machine}
use dos_kernel.Memory.Vm.{vm_map, vm_space_create, vm_write, vm_uncached}

-- Accesses to ports, and 32-bit accesses to device memory.
pub data Access : Type 0 where
  out8 : ℕ → ℕ → Access
  in8 : ℕ → Access
  read32 : ℕ → Access
  write32 : ℕ → ℕ → Access

-- `msr` is the register IA32_APIC_BASE; the three after it are the statics of the file.
pub record Apic : Type 0 where
  pub machine : Machine
  pub msr : ℕ
  pub apic_virt : ℕ
  pub ioapic_virt : ℕ
  pub apic_space : ℕ
  pub log : List Access

abbrev pub lvt_masked : ℕ
lvt_masked = 2 ^ 16

abbrev pub redtbl : ℕ
redtbl = 0x10

abbrev pub base_mask : ℕ
base_mask = 0xFFFFFFFFFFFFF000

-- A routine of the memory part.
abbrev pub in_memory : {A : Type 0} → Run Machine A → Apic → Run Apic A
in_memory (ok a m) s = ok a (record s { machine = m })
in_memory panicked s = panicked
in_memory out_of_fuel s = out_of_fuel

abbrev pub memory : {A : Type 0} → Cmd Machine A → Cmd Apic A
memory c s = in_memory (c s.machine) s

abbrev pub outb : ℕ → ℕ → Cmd Apic (Unit {0})
outb port val s = ok tt (record s { log = out8 port val ∷ s.log })

abbrev pub write_word : ℕ → ℕ → Cmd Apic (Unit {0})
write_word addr val s = ok tt (record s { log = write32 addr val ∷ s.log })

unfoldable pub pit_set_oneshot : ℕ → Cmd Apic (Unit {0})
pit_set_oneshot divisor = do
  outb 0x43 0x34
  outb 0x40 (u8 (bit_and divisor 0xFF))
  outb 0x40 (u8 (divisor >>> 8))

unfoldable pub cpu_get_apic_base : Cmd Apic ℕ
cpu_get_apic_base s = ok (bit_and s.msr base_mask) s

unfoldable pub cpu_set_apic_base : ℕ → Bool → Cmd Apic (Unit {0})
cpu_set_apic_base base is_bsp s =
    let msr = bit_or (bit_and base base_mask) (2 ^ 11) in
    ok tt (record s { msr = if is_bsp then bit_or msr (2 ^ 8) else msr })

unfoldable pub apic_write : ℕ → ℕ → Cmd Apic (Unit {0})
apic_write reg value = do
  base ← (λ s. ok s.apic_virt s)
  assert (not (base == 0))
  write_word (u64 (base + 4 * (reg / 4))) value

unfoldable pub apic_eoi : Cmd Apic (Unit {0})
apic_eoi = apic_write 0xB0 0

unfoldable pub ioapic_write : ℕ → ℕ → Cmd Apic (Unit {0})
ioapic_write reg value = do
  base ← (λ s. ok s.ioapic_virt s)
  assert (not (base == 0))
  write_word base reg
  write_word (u64 (base + 0x10)) value

-- The two words of a redirection entry.
unfoldable pub ioapic_set_entry : ℕ → ℕ → ℕ → Bool → Cmd Apic (Unit {0})
ioapic_set_entry irq vector dest masked = do
  ioapic_write (u8 (redtbl + irq * 2))
      (bit_and (if masked then bit_or vector lvt_masked else vector) 0xFFFFFFFF)
  ioapic_write (u8 (u8 (redtbl + irq * 2) + 1)) (u32 (dest <<< 24))

module _ (dev : Apic → ℕ → ℕ) where
  abbrev pub inb : ℕ → Cmd Apic ℕ
  inb port s = ok (u8 (dev s port)) (record s { log = in8 port ∷ s.log })

  abbrev pub read_word : ℕ → Cmd Apic ℕ
  read_word addr s = ok (u32 (dev s addr)) (record s { log = read32 addr ∷ s.log })

  -- The `while (1)` of pit_wait_ms, with fuel.
  unfoldable pub pit_poll : ℕ → Cmd Apic (Unit {0})
  pit_poll zero = λ _. out_of_fuel
  pit_poll (suc fuel) = do
    outb 0x43 0xE2
    v ← inb 0x40
    if bit_and v (1 <<< 7) == 0 then pit_poll fuel else pure tt

  unfoldable pub pit_wait_ms : ℕ → ℕ → Cmd Apic (Unit {0})
  pit_wait_ms fuel ms =
      let ticks = u32 (1193182 * ms) / 1000 in
      do pit_set_oneshot (u16 (if ltb 0xFFFF ticks then 0xFFFF else ticks)); pit_poll fuel

  unfoldable pub apic_read : ℕ → Cmd Apic ℕ
  apic_read reg = do
    base ← (λ s. ok s.apic_virt s)
    assert (not (base == 0))
    read_word (u64 (base + 4 * (reg / 4)))

  unfoldable pub apic_id : Cmd Apic ℕ
  apic_id = do v ← apic_read 0x20; pure (u8 (v >>> 24))

  unfoldable pub apic_timer_calibrate : ℕ → ℕ → Cmd Apic ℕ
  apic_timer_calibrate fuel hz = do
    apic_write 0x3E0 0xB
    apic_write 0x380 0xFFFFFFFF
    apic_write 0x320 lvt_masked
    apic_start ← apic_read 0x390
    pit_wait_ms fuel 10
    apic_end ← apic_read 0x390
    pure (u32 (u64 (sub32 apic_start apic_end * hz) / 10))

  -- A division by `hz` = 0 is an exception, which ends in panic.
  unfoldable pub apic_timer_init : ℕ → ℕ → Cmd Apic (Unit {0})
  apic_timer_init fuel hz = do
    ticks_per_sec ← apic_timer_calibrate fuel hz
    assert (not (hz == 0))
    apic_write 0x3E0 0xB
    apic_write 0x320 (0x20 + 2 ^ 17)
    apic_write 0x380 (ticks_per_sec / hz)

  unfoldable pub ioapic_read : ℕ → Cmd Apic ℕ
  ioapic_read reg = do
    base ← (λ s. ok s.ioapic_virt s)
    assert (not (base == 0))
    write_word base reg
    read_word (u64 (base + 0x10))

  unfoldable pub ioapic_mask : ℕ → Cmd Apic (Unit {0})
  ioapic_mask irq = do
    low ← ioapic_read (u8 (redtbl + irq * 2))
    ioapic_write (u8 (redtbl + irq * 2)) (bit_or low lvt_masked)

  unfoldable pub ioapic_unmask : ℕ → Cmd Apic (Unit {0})
  ioapic_unmask irq = do
    low ← ioapic_read (u8 (redtbl + irq * 2))
    ioapic_write (u8 (redtbl + irq * 2)) (bit_and low (2 ^ 32 - 1 - lvt_masked))

  -- `for (uint8_t i = from; i <= max_irqs; i++)`, with fuel; `i` wraps at 256.
  unfoldable pub mask_loop : ℕ → ℕ → ℕ → Cmd Apic (Unit {0})
  mask_loop zero max_irqs i = λ _. out_of_fuel
  mask_loop (suc fuel) max_irqs i =
      if leb i max_irqs then (do ioapic_mask i; mask_loop fuel max_irqs (u8 (i + 1))) else pure tt

  unfoldable pub ioapic_init : ℕ → Cmd Apic (Unit {0})
  ioapic_init phys_base = do
    base ← (λ s. ok s.apic_virt s)
    assert (not (base == 0))
    space ← (λ s. ok s.apic_space s)
    vaddr ← memory (vm_map space phys_base 0x1000 (vm_write + vm_uncached))
    (λ s. ok tt (record s { ioapic_virt = vaddr }))
    version ← ioapic_read 0x01
    mask_loop 257 (bit_and (version >>> 16) 0xFF) 0

  -- `if (!apic_space)`
  unfoldable pub make_space : Cmd Apic (Unit {0})
  make_space = do
    space ← (λ s. ok s.apic_space s)
    if not (space == 0) then pure tt else do
      created ← memory (vm_space_create 0xFFFFFFFFC0000000 0x10000)
      λ s. ok tt (record s { apic_space = created })

  unfoldable pub enable_apic : Bool → Cmd Apic (Unit {0})
  enable_apic is_bsp = do
    phys ← cpu_get_apic_base
    msr ← (λ s. ok s.msr s)
    if bit_and msr (2 ^ 11) == 0 then cpu_set_apic_base phys is_bsp else pure tt
    make_space
    space ← (λ s. ok s.apic_space s)
    va ← memory (vm_map space phys 0x1000 (vm_write + vm_uncached))
    (λ s. ok tt (record s { apic_virt = va }))
    apic_write 0x80 0
    apic_write 0x350 lvt_masked
    apic_write 0x360 lvt_masked
    apic_write 0x370 lvt_masked
    svr ← apic_read 0xF0
    apic_write 0xF0 (bit_or svr (2 ^ 8))
