-- ===== src/X86/Idt/Handlers.antt =====
-- kernel/src/x86_64/idt.c: the handlers behind the stubs of the vectors.
pub mod Laws
use dos_kernel.Common.{ℕ, List, [], ◌∷◌, ◌==◌, if◌then◌else◌, Cmd, ok, panicked, ◌>>◌}
use dos_kernel.Logging.Printk.{codes}
use dos_kernel.Logging.Serial.{serial_write_fmt}
use dos_kernel.X86.Apic.{Apic, out8, apic_eoi}

-- What the stub and the processor put on the stack.
pub record InterruptFrame : Type 0 where
  pub r15 : ℕ
  pub r14 : ℕ
  pub r13 : ℕ
  pub r12 : ℕ
  pub r11 : ℕ
  pub r10 : ℕ
  pub r9 : ℕ
  pub r8 : ℕ
  pub rbp : ℕ
  pub rdi : ℕ
  pub rsi : ℕ
  pub rdx : ℕ
  pub rcx : ℕ
  pub rbx : ℕ
  pub rax : ℕ
  pub vector : ℕ
  pub error_code : ℕ
  pub rip : ℕ
  pub cs : ℕ
  pub rflags : ℕ
  pub rsp : ℕ
  pub ss : ℕ

abbrev pub apic_timer_vector : ℕ
apic_timer_vector = 0x20

abbrev pub port_out : ℕ → ℕ → Apic → Apic
port_out port val s = record s { log = out8 port val ∷ s.log }

-- It ends in panic, which does not return.
unfoldable pub exception_handler : InterruptFrame → Cmd Apic (Unit {0})
exception_handler f s = panicked

module _ {Args : Type 0} (format : (ℕ → Apic → Apic) → List ℕ → Args → Apic → Apic)
    (no_args : Args) where
  unfoldable pub apic_timer_handler : InterruptFrame → Cmd Apic (Unit {0})
  apic_timer_handler f =
      (λ s. ok tt (serial_write_fmt port_out format (codes ".") no_args s)) >> apic_eoi

  unfoldable pub isr_handler : InterruptFrame → Cmd Apic (Unit {0})
  isr_handler f =
      if f.vector == apic_timer_vector then apic_timer_handler f else exception_handler f
