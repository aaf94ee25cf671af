-- ===== src/Memory/Machine.antt =====
-- The state that the routines of kernel/src/memory share, and the address arithmetic of hhdm.c and
-- tlb.c. All structures of these files (free frames, page tables, `block_t`, `struct vm_space`,
-- `struct vm_region`, `struct mmio_region`) consist of 64-bit fields at 8-byte steps, so memory is
-- a function from the virtual address of such a field to its 64-bit value.
use dos_kernel.Common.{
  ℕ, zero, suc, ◌+◌, List, ◌∷◌, ◌&&◌, u64, sub64, ltb, leb, ◌==◌, if◌then◌else◌, Cmd, ok,
  out_of_fuel,
}

abbrev pub Memory : Type 0
Memory = ℕ → ℕ

abbrev pub write : Memory → ℕ → ℕ → Memory
write m a v b = if b == a then v else m b

-- `memset(a, 0, n)` for whole fields.
abbrev pub clear : Memory → ℕ → ℕ → Memory
clear m a n b = if leb a b && ltb b (a + n) then 0 else m b

-- The statics of the files, the register cr3, and the pages that `invlpg` was given, the latest
-- first.
pub record Machine : Type 0 where
  pub mem : Memory
  pub offset : ℕ
  pub page_list : ℕ
  pub kernel_pml4 : ℕ
  pub free_list : ℕ
  pub heap_top : ℕ
  pub cr3 : ℕ
  pub flushed : List ℕ

abbrev pub load : ℕ → Cmd Machine ℕ
load a s = ok (s.mem a) s

abbrev pub store : ℕ → ℕ → Cmd Machine (Unit {0})
store a v s = ok tt (record s { mem = write s.mem a v })

abbrev pub memset_zero : ℕ → ℕ → Cmd Machine (Unit {0})
memset_zero a n s = ok tt (record s { mem = clear s.mem a n })

-- hhdm_init: the answer of the boot loader is the argument.
unfoldable pub hhdm_init : ℕ → Cmd Machine (Unit {0})
hhdm_init response_offset s = ok tt (record s { offset = response_offset })

unfoldable pub phys_virt : ℕ → ℕ → ℕ
phys_virt offset phys = u64 (offset + phys)

unfoldable pub virt_phys : ℕ → ℕ → ℕ
virt_phys offset virt = sub64 virt offset

-- `for (; length > 0; length -= 0x1000, addr += 0x1000)`, with fuel; `length` wraps when it is no
-- multiple of a page.
unfoldable pub invalidate_loop : ℕ → ℕ → ℕ → Cmd Machine (Unit {0})
invalidate_loop zero addr length = λ _. out_of_fuel
invalidate_loop (suc fuel) addr length =
    let rest = λ (s : Machine).
      invalidate_loop fuel (u64 (addr + 0x1000)) (sub64 length 0x1000)
        (record s { flushed = addr ∷ s.flushed }) in
    if length == 0 then (λ s. ok tt s) else rest
