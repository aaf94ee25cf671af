-- ===== src/X86/Idt.antt =====
-- kernel/src/x86_64/idt.c: the gates of the interrupt descriptor table.
pub mod Laws
pub mod Handlers
use dos_kernel.Common.{ℕ, zero, suc, ◌+◌, ◌-◌, ◌*◌, bit_and, ◌>>>◌, u8, ◌==◌, if◌then◌else◌}
use dos_kernel.Ports.{History}
use dos_kernel.X86.Pic.{pic_disable}

pub record IdtEntry : Type 0 where
  pub isr_low : ℕ
  pub kernel_cs : ℕ
  pub ist : ℕ
  pub attributes : ℕ
  pub isr_mid : ℕ
  pub isr_high : ℕ
  pub reserved : ℕ

pub record Idtr : Type 0 where
  pub limit : ℕ
  pub base : ℕ

-- The static table as a function of the vector, the register that lidt sets, the interrupt flag and
-- what was done at the ports.
pub record Idt : Type 0 where
  pub table : ℕ → IdtEntry
  pub loaded : Idtr
  pub interrupts : ℕ
  pub ports : History

pub encode_gate : ℕ → ℕ → IdtEntry
encode_gate isr flags = record {
  isr_low = bit_and isr 0xFFFF;
  kernel_cs = 0x08;
  ist = 0;
  attributes = flags;
  isr_mid = bit_and (isr >>> 16) 0xFFFF;
  isr_high = bit_and (isr >>> 32) 0xFFFFFFFF;
  reserved = 0;
}

pub idt_set_descriptor : ℕ → ℕ → ℕ → Idt → Idt
unfolding encode_gate
idt_set_descriptor vector isr flags t = record t {
  table = λ v. if v == vector then encode_gate isr flags else t.table v;
}

-- `for (v = from; rounds more; v++)`
pub fill : (stubs : ℕ → ℕ) (rounds v : ℕ) → Idt → Idt
fill stubs zero v t = t
fill stubs (suc rounds) v t = fill stubs rounds (v + 1) (idt_set_descriptor (u8 v) (stubs v) 0x8E t)

-- `stubs` is isr_stub_table of isr.asm, and `table_at` the address of the table.
pub idt_init : (stubs : ℕ → ℕ) (table_at : ℕ) → Idt → Idt
unfolding fill
idt_init stubs table_at t =
    let filled = fill stubs 256 0 t in
    record filled {
      loaded = record { limit = 16 * 256 - 1; base = table_at };
      ports = (pic_disable filled.ports).1;
      interrupts = 1;
    }
