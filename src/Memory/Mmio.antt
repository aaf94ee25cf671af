-- ===== src/Memory/Mmio.antt =====
-- kernel/src/memory/mmio.c: device memory mapped into an address space. A `struct mmio_region` lives
-- in memory at the offsets of its fields. The device behind an address is a parameter.
pub mod Bounds
use dos_kernel.Common.{
  ℕ, ◌+◌, ◌-◌, ◌%◌, ◌^◌, not, u8, u16, u32, u64, sub64, ltb, leb, ◌==◌, Run, Cmd, ok, panicked,
  out_of_fuel, pure, assert, List, ◌∷◌, ◌>>=◌, ◌>>◌,
}
use dos_kernel.Memory.Machine.{Machine, load, store}
use dos_kernel.Memory.Frame.{frame_alloc, frame_free}
use dos_kernel.Memory.Paging.{paging_unmap_page}
use dos_kernel.Memory.Vm.{
  page_up, frame_at, vm_map_region, space_pml4, region_base, region_size, region_next,
}

abbrev pub mmio_phys_base : ℕ → ℕ
mmio_phys_base mr = mr

abbrev pub mmio_virt_base : ℕ → ℕ
mmio_virt_base mr = mr + 8

abbrev pub mmio_size : ℕ → ℕ
mmio_size mr = mr + 16

abbrev pub mmio_vm_region : ℕ → ℕ
mmio_vm_region mr = mr + 24

-- ENTRY_FLAG_PRESENT, RW, PWT, PCD and NX.
abbrev pub mmio_flags : ℕ
mmio_flags = 2 ^ 0 + 2 ^ 1 + 2 ^ 3 + 2 ^ 4 + 2 ^ 63

unfoldable pub mmio_init : ℕ → ℕ → ℕ → Cmd Machine ℕ
mmio_init space phys_base size = do
  assert (not (space == 0))
  assert (phys_base % 0x1000 == 0)
  assert (ltb 0 size)
  phys ← frame_alloc
  mr ← frame_at phys
  store (mmio_phys_base mr) phys_base
  store (mmio_size mr) (page_up size)
  store (region_base (mmio_vm_region mr)) phys_base
  store (region_size (mmio_vm_region mr)) (page_up size)
  store (region_next (mmio_vm_region mr)) 0
  vaddr ← vm_map_region space (mmio_vm_region mr) mmio_flags
  store (mmio_virt_base mr) vaddr
  pure mr

-- The checks of the accesses to one byte and to more, and the address that they then use.
unfoldable pub byte_address : ℕ → ℕ → Cmd Machine ℕ
byte_address mr offset_bytes = do
  assert (not (mr == 0))
  size ← load (mmio_size mr)
  assert (ltb offset_bytes size)
  base ← load (mmio_virt_base mr)
  pure (u64 (base + offset_bytes))

unfoldable pub word_address : ℕ → ℕ → ℕ → Cmd Machine ℕ
word_address width mr offset_bytes = do
  assert (not (mr == 0))
  size ← load (mmio_size mr)
  assert (leb (u64 (offset_bytes + width)) size)
  base ← load (mmio_virt_base mr)
  pure (u64 (base + offset_bytes))

-- An access to device memory, by its width in bytes and its address.
pub data Access : Type 0 where
  loaded : ℕ → ℕ → Access
  stored : ℕ → ℕ → ℕ → Access

-- The machine, and the accesses that the devices have seen, the latest first.
pub record Mmio : Type 0 where
  pub machine : Machine
  pub accesses : List Access

abbrev pub in_mmio : {A : Type 0} → Run Machine A → Mmio → Run Mmio A
in_mmio (ok a m) s = ok a (record s { machine = m })
in_mmio panicked s = panicked
in_mmio out_of_fuel s = out_of_fuel

abbrev pub on_machine : {A : Type 0} → Cmd Machine A → Cmd Mmio A
on_machine c s = in_mmio (c s.machine) s

-- `*(volatile uintN_t *)a = val`.
abbrev pub device_store : ℕ → ℕ → ℕ → Cmd Mmio (Unit {0})
device_store width val a s = ok tt (record s { accesses = stored width a val ∷ s.accesses })

-- `bus s a` is what a load from the address `a` answers; a device may answer by all that it has seen.
module _ (bus : Mmio → ℕ → ℕ) where
  abbrev pub device_load : ℕ → ℕ → Cmd Mmio ℕ
  device_load width a s = ok (bus s a) (record s { accesses = loaded width a ∷ s.accesses })

  unfoldable pub mmio_read8 : ℕ → ℕ → Cmd Mmio ℕ
  mmio_read8 mr offset_bytes = do
    a ← on_machine (byte_address mr offset_bytes)
    x ← device_load 1 a
    pure (u8 x)

  unfoldable pub mmio_read16 : ℕ → ℕ → Cmd Mmio ℕ
  mmio_read16 mr offset_bytes = do
    a ← on_machine (word_address 2 mr offset_bytes)
    x ← device_load 2 a
    pure (u16 x)

  unfoldable pub mmio_read32 : ℕ → ℕ → Cmd Mmio ℕ
  mmio_read32 mr offset_bytes = do
    a ← on_machine (word_address 4 mr offset_bytes)
    x ← device_load 4 a
    pure (u32 x)

  unfoldable pub mmio_read64 : ℕ → ℕ → Cmd Mmio ℕ
  mmio_read64 mr offset_bytes = do
    a ← on_machine (word_address 8 mr offset_bytes)
    x ← device_load 8 a
    pure (u64 x)

unfoldable pub mmio_write8 : ℕ → ℕ → ℕ → Cmd Mmio (Unit {0})
mmio_write8 mr offset_bytes val = do
  a ← on_machine (byte_address mr offset_bytes)
  device_store 1 (u8 val) a

unfoldable pub mmio_write16 : ℕ → ℕ → ℕ → Cmd Mmio (Unit {0})
mmio_write16 mr offset_bytes val = do
  a ← on_machine (word_address 2 mr offset_bytes)
  device_store 2 (u16 val) a

unfoldable pub mmio_write32 : ℕ → ℕ → ℕ → Cmd Mmio (Unit {0})
mmio_write32 mr offset_bytes val = do
  a ← on_machine (word_address 4 mr offset_bytes)
  device_store 4 (u32 val) a

unfoldable pub mmio_write64 : ℕ → ℕ → ℕ → Cmd Mmio (Unit {0})
mmio_write64 mr offset_bytes val = do
  a ← on_machine (word_address 8 mr offset_bytes)
  device_store 8 (u64 val) a

unfoldable pub mmio_destroy : ℕ → ℕ → Cmd Machine (Unit {0})
mmio_destroy space mr = do
  assert (not (space == 0))
  assert (not (mr == 0))
  pml4 ← load (space_pml4 space)
  base ← load (mmio_virt_base mr)
  size ← load (mmio_size mr)
  paging_unmap_page pml4 base size
  λ s. frame_free (sub64 mr s.offset) s
