-- ===== src/Tests/Output.antt =====
-- The theorems on the log, on panic and on interrupts at concrete inputs.
use dos_kernel.Common.{ℕ, some, ◌≡◌, refl, arith, List, [], ◌∷◌, ◌++◌}
use dos_kernel.Logging.Printk.{pos, Log, vprintk_level, checked_level}
use dos_kernel.Logging.Printk.Buffer.{each, take}
use dos_kernel.Logging.Printk.Rows.{rows}
use dos_kernel.Logging.Printk.Laws.{vprintk_level-rows}
use dos_kernel.Logging.Panic.{RegisterDump, panic}
use dos_kernel.Logging.Panic.Laws.{dumped, all_registers, panic-rows}
use dos_kernel.X86.Apic.{Apic}
use dos_kernel.X86.Idt.Handlers.{InterruptFrame, isr_handler}
use dos_kernel.X86.Idt.Handlers.Laws.{answered, isr_handler-answered}

-- A terminal that keeps what it gets, the last byte first, and a formatter of texts without directives.
abbrev pub keep : ℕ → List ℕ → List ℕ
keep c t = c ∷ t

abbrev pub plain_format : {S : Type 0} → (ℕ → S → S) → List ℕ → List ℕ → S → S
plain_format w fmt list s = each w fmt s

abbrev pub no_output : Log (List ℕ)
no_output = record { terminal = []; fmt_buf = λ i. 0; fmt_buf_pos = 0 }

-- "A", a newline, "B", and "A" alone.
abbrev two_lines : List ℕ
two_lines = 65 ∷ 10 ∷ 66 ∷ []

abbrev one_line : List ℕ
one_line = 65 ∷ []

level_3 : checked_level (pos 3) ≡ some 3
unfolding checked_level
level_3 = refl

vprintk_level-rows_example :
    (vprintk_level keep plain_format (pos 3) two_lines [] no_output).terminal
    ≡ each keep (rows 3 (take 1023 two_lines)) []
vprintk_level-rows_example =
    vprintk_level-rows keep plain_format two_lines [] two_lines (λ w t. refl) (pos 3) 3 no_output
      level_3 (omega arith, (omega arith, (omega arith, tt)))

abbrev registers : RegisterDump
registers = record {
  rax = 1;
  rbx = 2;
  rcx = 3;
  rdx = 4;
  rsi = 5;
  rdi = 6;
  rbp = 7;
  rsp = 8;
  r8 = 9;
  r9 = 10;
  r10 = 11;
  r11 = 12;
  r12 = 13;
  r13 = 14;
  r14 = 15;
  r15 = 16;
  rip = 17;
  rflags = 18;
  cs = 19;
  ss = 20;
  ds = 21;
  es = 22;
  fs = 23;
  gs = 24;
}

abbrev same_args : List ℕ → List ℕ
same_args values = values

abbrev format_only : List ℕ → List ℕ → List ℕ
format_only fmt list = fmt

panic-rows_example :
    (panic keep plain_format same_args registers two_lines [] no_output).terminal
    ≡ each keep
        (rows 4 (take 1023 two_lines)
          ++ dumped keep plain_format same_args format_only
              (λ w fmt list t. refl)
              (all_registers registers))
        []
panic-rows_example =
    panic-rows keep plain_format same_args format_only (λ w fmt list t. refl) registers two_lines []
      no_output (omega arith, (omega arith, (omega arith, tt)))

abbrev apic_state : Apic
apic_state = record {
  machine = record {
    mem = λ a. 0;
    offset = 0;
    page_list = 0;
    kernel_pml4 = 0;
    free_list = 0;
    heap_top = 0;
    cr3 = 0;
    flushed = [];
  };
  msr = 0;
  apic_virt = 0x1000;
  ioapic_virt = 0;
  apic_space = 0;
  log = [];
}

abbrev timer_frame : InterruptFrame
timer_frame = record {
  r15 = 0;
  r14 = 0;
  r13 = 0;
  r12 = 0;
  r11 = 0;
  r10 = 0;
  r9 = 0;
  r8 = 0;
  rbp = 0;
  rdi = 0;
  rsi = 0;
  rdx = 0;
  rcx = 0;
  rbx = 0;
  rax = 0;
  vector = 0x20;
  error_code = 0;
  rip = 0;
  cs = 8;
  rflags = 0;
  rsp = 0;
  ss = 0;
}

isr_handler-answered_example :
    isr_handler plain_format [] timer_frame apic_state ≡ answered 0x20 apic_state
isr_handler-answered_example =
    isr_handler-answered plain_format [] timer_frame apic_state (λ w t. refl) (omega arith)
