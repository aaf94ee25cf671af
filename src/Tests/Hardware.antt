-- ===== src/Tests/Hardware.antt =====
-- The PCI, GDT, PIC and IDT theorems at concrete values.
use dos_kernel.Common.{◌+◌, ◌*◌, ◌/◌, ◌≡◌, arith, [], ◌∷◌}
use dos_kernel.Ports.{out8}
use dos_kernel.X86.Gdt.{gdt_encode_entry, Gdt, GdtPtr, gdt_init}
use dos_kernel.X86.Gdt.Laws.{
  base_of, limit_of, flags_of, gdt_encode_entry-decodes, Selects, gdt_init-Selects,
}
use dos_kernel.X86.Idt.{IdtEntry, Idt, idt_init}
use dos_kernel.X86.Idt.Laws.{offset_of, idt_init-gates}

gdt_encode_entry-decodes_example :
    (base_of (gdt_encode_entry 0x12345678 0xFFFFF 0x9A 0xA0) ≡ 0x12345678)
    × (limit_of (gdt_encode_entry 0x12345678 0xFFFFF 0x9A 0xA0) ≡ 0xFFFFF)
    × ((gdt_encode_entry 0x12345678 0xFFFFF 0x9A 0xA0).access ≡ 0x9A)
    × (flags_of (gdt_encode_entry 0x12345678 0xFFFFF 0x9A 0xA0) ≡ 0xA0 / 16)
gdt_encode_entry-decodes_example =
    gdt_encode_entry-decodes 0x12345678 0xFFFFF 0x9A 0xA0 (omega arith) (omega arith) (omega arith)

abbrev no_gate : IdtEntry
no_gate = record {
  isr_low = 0;
  kernel_cs = 0;
  ist = 0;
  attributes = 0;
  isr_mid = 0;
  isr_high = 0;
  reserved = 0;
}

abbrev pub boot_idt : Idt
boot_idt = record {
  table = λ v. no_gate;
  loaded = record { limit = 0; base = 0 };
  interrupts = 0;
  ports = [];
}

idt_init-gates_example :
    let r = idt_init (λ v. 0xFFFFFFFF80001000 + 16 * v) 0x5000 boot_idt in
    (offset_of (r.table 32) ≡ 0xFFFFFFFF80001000 + 16 * 32)
    × ((r.table 32).kernel_cs ≡ 0x08)
    × ((r.table 32).attributes ≡ 0x8E)
    × (r.loaded.limit + 1 ≡ 256 * 16)
    × (r.ports ≡ out8 0xA1 0xFF ∷ out8 0x21 0xFF ∷ [])
    × (r.interrupts ≡ 1)
idt_init-gates_example =
    idt_init-gates (λ v. 0xFFFFFFFF80001000 + 16 * v) 0x5000 boot_idt 32 (omega arith) (omega arith)

abbrev no_ptr : GdtPtr
no_ptr = record { limit = 0; base = 0 }

abbrev pub boot_gdt : Gdt
boot_gdt = record {
  entries = λ i. 0;
  ptr = no_ptr;
  tss = record {
    reserved0 = 0;
    rsp0 = 0;
    rsp1 = 0;
    rsp2 = 0;
    reserved1 = 0;
    ist1 = 0;
    ist2 = 0;
    ist3 = 0;
    ist4 = 0;
    ist5 = 0;
    ist6 = 0;
    ist7 = 0;
    reserved2 = 0;
    reserved3 = 0;
    io_map_base = 0;
  };
  loaded = no_ptr;
  code_selector = 0;
  data_selector = 0;
  task = 0;
}

gdt_init-Selects_example : Selects 0x1000 0x2000 0x3000 (gdt_init 0x1000 0x2000 0x3000 boot_gdt)
gdt_init-Selects_example =
    gdt_init-Selects 0x1000 0x2000 0x3000 boot_gdt (omega arith) (omega arith)
