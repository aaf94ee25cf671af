-- ===== src/X86.antt =====
-- kernel/src/x86_64.
pub mod Gdt
pub mod Pic
pub mod Idt
pub mod Apic
