-- ===== src/X86/Idt/Handlers/Laws.antt =====
-- What an interrupt does, by its vector.
use dos_kernel.Common.{
  ℕ, ◌+◌, ◌^◌, ◌<◌, ◌≡◌, refl, arith, List, ◌∷◌, ◌==◌, ◌&&◌, not, if◌then◌else◌, Run, ok, panicked,
  u64, Bool-cases, inl, inr,
}
use dos_kernel.Logging.Printk.{codes}
use dos_kernel.Logging.Printk.Buffer.{each}
use dos_kernel.Logging.Serial.{serial_write_fmt, write_char}
use dos_kernel.X86.Apic.{Apic, out8, write32, apic_eoi, apic_write}
use dos_kernel.X86.Idt.Handlers.{InterruptFrame, apic_timer_handler, exception_handler, isr_handler}

-- The timer's interrupt is answered once the APIC is mapped; anything else stops the kernel.
abbrev pub answered : ℕ → Apic → Run Apic (Unit {0})
answered vector s =
    if vector == 32 && not (s.apic_virt == 0)
    then ok tt (record s { log = write32 (s.apic_virt + 0xB0) 0 ∷ out8 0xE9 b'.' ∷ s.log })
    else panicked

-- isr_handler prints one dot at the debug port and then signals the end of the interrupt to the local APIC when
-- the vector is the timer's and the APIC is mapped; in all other cases it stops in panic. `format` writes a text
-- without arguments as it is, and the registers of the APIC do not wrap.
pub isr_handler-answered :
    {Args : Type 0} (format : (ℕ → Apic → Apic) → List ℕ → Args → Apic → Apic) (no_args : Args)
    (f : InterruptFrame) (s : Apic)
    → ((w : ℕ → Apic → Apic) (t : Apic) → format w (codes ".") no_args t ≡ each w (codes ".") t)
    → s.apic_virt + 0xB0 < 2 ^ 64
    → isr_handler format no_args f s ≡ answered f.vector s
unfolding isr_handler apic_timer_handler exception_handler serial_write_fmt write_char apic_eoi
    apic_write
isr_handler-answered format no_args f s writes small =
    let plain : u64 (s.apic_virt + 176) ≡ s.apic_virt + 0xB0 = omega arith in
    elim (Bool-cases (f.vector == 32)) [
      | inl timer ↦
          rw (timer, writes)
            (elim (Bool-cases (s.apic_virt == 0)) [
              | inl unmapped ↦ rw unmapped refl
              | inr is_mapped ↦ rw (is_mapped, plain) refl
            ])
      | inr other ↦ rw other refl
    ]
