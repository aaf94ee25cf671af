-- ===== src/X86/Apic/Laws.antt =====
-- The redirection entries that apic.c writes.
use dos_kernel.Common.{
  ℕ, ◌+◌, ◌*◌, ◌%◌, ◌^◌, ◌<◌, ◌≡◌, ◌≢◌, refl, arith, Bool, true, false, ◌∷◌, bit_and, bit_or, u64,
  ◌==◌, if◌then◌else◌, ok,
}
use dos_kernel.Common.Bits.{bit_and_mask, zero-bit_or, bit_or-zero, bit_or_split}
use dos_kernel.X86.Apic.{Apic, write32, ioapic_write, ioapic_set_entry, lvt_masked}

-- The low word of an entry holds the vector in its low byte and the mask in bit 16, and nothing else.
low_word :
    (vector : ℕ) → vector < 256 → bit_and (bit_or vector lvt_masked) 0xFFFFFFFF ≡ vector + 2 ^ 16
low_word vector h = ground (
  arith,
  bit_or_split 16 0 vector 1 0,
  zero-bit_or 1,
  bit_or-zero vector,
  bit_and_mask 32 (vector + 2 ^ 16),
)

plain_word : (vector : ℕ) → vector < 256 → bit_and vector 0xFFFFFFFF ≡ vector
plain_word vector h = ground (arith, bit_and_mask 32 vector)

word_lem :
    (vector : ℕ) (masked : Bool)
    → vector < 256
    → bit_and (if masked then bit_or vector lvt_masked else vector) 0xFFFFFFFF
      ≡ (if masked then vector + 2 ^ 16 else vector)
word_lem vector true h = low_word vector h
word_lem vector false h = plain_word vector h

-- ioapic_set_entry writes the two words of the entry of its line: the vector with the mask in bit 16, and
-- the destination in the top byte of the word after it.
pub ioapic_set_entry_writes :
    (irq vector dest : ℕ) (masked : Bool) (s : Apic)
    → irq < 120
    → vector < 256
    → dest < 256
    → s.ioapic_virt ≢ 0
    → s.ioapic_virt + 16 < 2 ^ 64
    → ioapic_set_entry irq vector dest masked s
      ≡ ok tt (record s {
        log =
            write32 (s.ioapic_virt + 0x10) (dest * 2 ^ 24)
            ∷ write32 s.ioapic_virt (17 + 2 * irq)
            ∷ write32 (s.ioapic_virt + 0x10) (if masked then vector + 2 ^ 16 else vector)
            ∷ write32 s.ioapic_virt (16 + 2 * irq)
            ∷ s.log;
      })
unfolding ioapic_set_entry ioapic_write
ioapic_set_entry_writes irq vector dest masked s hi hv hd ne fits =
    let nz : (s.ioapic_virt == 0) ≡ false = ground arith in
    let reg : (0x10 + irq * 2) % 2 ^ 8 ≡ 16 + 2 * irq = omega arith in
    let reg' : (16 + 2 * irq + 1) % 2 ^ 8 ≡ 17 + 2 * irq = omega arith in
    let window : u64 (s.ioapic_virt + 0x10) ≡ s.ioapic_virt + 0x10 = omega arith in
    let high : dest * 2 ^ 24 % 2 ^ 32 ≡ dest * 2 ^ 24 = omega arith in
    rw (word_lem vector masked hv, nz, reg, reg', window, high, nz) refl
