-- ===== src/X86/Idt/Laws.antt =====
-- What a processor finds in the table that idt_init fills.
use dos_kernel.Common.{
  ℕ, zero, suc, ◌+◌, ◌*◌, ◌/◌, ◌^◌, ◌≤◌, ◌<◌, ◌≡◌, refl, arith, u8, if◌then◌else◌, ◌∷◌, ◌∙◌, ltb,
  leb, ◌&&◌,
}
use dos_kernel.Common.Bits.{bit_and_mask}
use dos_kernel.Ports.{out8}
use dos_kernel.X86.Pic.{pic_disable}
use dos_kernel.X86.Idt.{IdtEntry, Idt, encode_gate, idt_set_descriptor, fill, idt_init}

-- The processor's reading of a gate (AMD64 manual, volume 2, 4.8.4).
abbrev pub offset_of : IdtEntry → ℕ
offset_of e = e.isr_low + e.isr_mid * 2 ^ 16 + e.isr_high * 2 ^ 32

gate_offset : (isr flags : ℕ) → isr < 2 ^ 64 → offset_of (encode_gate isr flags) ≡ isr
unfolding encode_gate
gate_offset isr flags h =
    ground
      (arith, bit_and_mask 16 isr, bit_and_mask 16 (isr / 2 ^ 16), bit_and_mask 32 (isr / 2 ^ 32))

module _ (stubs : ℕ → ℕ) where
  fill_table :
      (rounds v w : ℕ) (t : Idt)
      → v + rounds ≤ 256
      → (fill stubs rounds v t).table w
        ≡ (if leb v w && ltb w (v + rounds) then encode_gate (stubs w) 0x8E else t.table w)
  unfolding fill idt_set_descriptor
  fill_table zero v w t h = ground arith
  fill_table (suc rounds) v w t h =
      ground (arith, fill_table rounds (v + 1) w (idt_set_descriptor (u8 v) (stubs v) 0x8E t))

  fill_ports : (rounds v : ℕ) (t : Idt) → (fill stubs rounds v t).ports ≡ t.ports
  unfolding fill idt_set_descriptor
  fill_ports zero v t = refl
  fill_ports (suc rounds) v t =
      fill_ports rounds (v + 1) (idt_set_descriptor (u8 v) (stubs v) 0x8E t)

-- After idt_init every one of the 256 vectors has a present 64-bit ring 0 interrupt gate to its stub
-- in the kernel's code segment; the loaded limit covers exactly these gates, both controllers were
-- told to mask all their lines, and interrupts are on.
pub idt_init-gates :
    (stubs : ℕ → ℕ) (table_at : ℕ) (t : Idt) (v : ℕ)
    → v < 256
    → stubs v < 2 ^ 64
    → let r = idt_init stubs table_at t in
      (offset_of (r.table v) ≡ stubs v)
      × ((r.table v).kernel_cs ≡ 0x08)
      × ((r.table v).attributes ≡ 0x8E)
      × (r.loaded.limit + 1 ≡ 256 * 16)
      × (r.ports ≡ out8 0xA1 0xFF ∷ out8 0x21 0xFF ∷ t.ports)
      × (r.interrupts ≡ 1)
unfolding idt_init pic_disable
idt_init-gates stubs table_at t v h hs =
    let at : (fill stubs 256 0 t).table v ≡ encode_gate (stubs v) 0x8E =
      fill_table stubs 256 0 v t (omega arith) ∙ ground arith in
    (
      rw at (gate_offset (stubs v) 0x8E hs),
      rw at (unfold encode_gate in refl),
      rw at (unfold encode_gate in refl),
      refl,
      rw (fill_ports stubs 256 0 t) refl,
      refl,
    )
