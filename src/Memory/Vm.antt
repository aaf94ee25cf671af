-- ===== src/Memory/Vm.antt =====
-- kernel/src/memory/vm.c: address spaces with a bump pointer and a list of regions. A
-- `struct vm_space` and a `struct vm_region` live in memory, at the offsets of their fields.
pub mod Regions
pub mod Space
pub mod Translate
pub mod Record
pub mod Map
pub mod Alloc
pub mod Backed
pub mod Create
pub mod Fresh
use dos_kernel.Common.{
  ℕ, zero, suc, ◌+◌, ◌-◌, ◌*◌, ◌/◌, ◌%◌, ◌^◌, Bool, true, false, not, bit_and, bit_or, u64, sub64,
  ltb, leb, ◌==◌, if◌then◌else◌, Cmd, ok, out_of_fuel, pure, assert, ◌>>=◌, ◌>>◌,
}
use dos_kernel.Memory.Machine.{Machine, load, store}
use dos_kernel.Memory.Frame.{frame_alloc, frame_free}
use dos_kernel.Memory.Paging.{
  entry_4k_address_mask, present, paging_get_entry, paging_map_page, paging_unmap_page,
  paging_create_pml4,
}

abbrev pub vm_write : ℕ
vm_write = 2 ^ 1

abbrev pub vm_user : ℕ
vm_user = 2 ^ 3

abbrev pub vm_uncached : ℕ
vm_uncached = 2 ^ 4

-- The fields of `struct vm_space` and `struct vm_region`.
abbrev pub space_pml4 : ℕ → ℕ
space_pml4 space = space

abbrev pub space_heap_base : ℕ → ℕ
space_heap_base space = space + 8

abbrev pub space_heap_end : ℕ → ℕ
space_heap_end space = space + 16

abbrev pub space_next_free : ℕ → ℕ
space_next_free space = space + 24

abbrev pub space_regions : ℕ → ℕ
space_regions space = space + 32

abbrev pub region_base : ℕ → ℕ
region_base region = region

abbrev pub region_size : ℕ → ℕ
region_size region = region + 8

abbrev pub region_next : ℕ → ℕ
region_next region = region + 16

-- `(size + 0xFFF) & ~(size_t)0xFFF`
unfoldable pub page_up : ℕ → ℕ
page_up size = bit_and (u64 (size + 0xFFF)) (2 ^ 64 - 1 - 0xFFF)

-- The address of a frame in the window of physical memory, `offset + phys`.
abbrev pub frame_at : ℕ → Cmd Machine ℕ
frame_at phys s = ok (u64 (s.offset + phys)) s

unfoldable pub vm_space_create : ℕ → ℕ → Cmd Machine ℕ
vm_space_create heap_base heap_size = do
  phys ← frame_alloc
  space ← frame_at phys
  pml4 ← paging_create_pml4
  store (space_pml4 space) pml4
  store (space_heap_base space) heap_base
  store (space_heap_end space) (u64 (heap_base + heap_size))
  store (space_next_free space) heap_base
  store (space_regions space) 0
  pure space

unfoldable pub region_alloc : ℕ → ℕ → Cmd Machine ℕ
region_alloc base size = do
  phys ← frame_alloc
  r ← frame_at phys
  store (region_base r) base
  store (region_size r) size
  store (region_next r) 0
  pure r

unfoldable pub region_insert : ℕ → ℕ → Cmd Machine (Unit {0})
region_insert space r = do
  head ← load (space_regions space)
  store (region_next r) head
  store (space_regions space) r

-- The loop of region_remove, with fuel. `cur` is the address of the link that is looked at, and 0
-- the NULL of the result.
unfoldable pub remove_loop : ℕ → ℕ → ℕ → Cmd Machine ℕ
remove_loop zero cur base = λ _. out_of_fuel
remove_loop (suc fuel) cur base = do
  r ← load cur
  if r == 0 then pure 0 else do
    found ← load (region_base r)
    if found == base
        then (do next ← load (region_next r); store cur next; pure r)
        else remove_loop fuel (region_next r) base

unfoldable pub region_remove : ℕ → ℕ → ℕ → Cmd Machine ℕ
region_remove fuel space base = remove_loop fuel (space_regions space) base

-- `for (i = from; i < size; i += 0x1000)`: a fresh frame behind each page.
unfoldable pub alloc_loop : ℕ → ℕ → ℕ → ℕ → ℕ → ℕ → Cmd Machine (Unit {0})
alloc_loop zero space vaddr size flags i = λ _. out_of_fuel
alloc_loop (suc fuel) space vaddr size flags i =
    let rest = (do
      phys ← frame_alloc
      pml4 ← load (space_pml4 space)
      paging_map_page pml4 (u64 (vaddr + i)) phys 0x1000 flags
      alloc_loop fuel space vaddr size flags (u64 (i + 0x1000))) in
    if ltb i size then rest else pure tt

-- `ASSERT(space->next_free + size <= space->heap_end)`, and `vaddr = space->next_free`.
unfoldable pub reserve : ℕ → ℕ → Cmd Machine ℕ
reserve space size = do
  next_free ← load (space_next_free space)
  heap_end ← load (space_heap_end space)
  assert (leb (u64 (next_free + size)) heap_end)
  pure next_free

-- `space->next_free += size`
unfoldable pub bump : ℕ → ℕ → Cmd Machine (Unit {0})
bump space size = do
  next_free ← load (space_next_free space)
  store (space_next_free space) (u64 (next_free + size))

-- `struct vm_region *r = region_alloc(vaddr, size); region_insert(space, r);`
unfoldable pub record_region : ℕ → ℕ → ℕ → Cmd Machine (Unit {0})
record_region space vaddr size = do r ← region_alloc vaddr size; region_insert space r

unfoldable pub vm_alloc : ℕ → ℕ → ℕ → Cmd Machine ℕ
vm_alloc space size flags = do
  assert (not (space == 0))
  assert (ltb 0 size)
  vaddr ← reserve space (page_up size)
  alloc_loop (page_up size / 0x1000 + 1) space vaddr (page_up size) flags 0
  record_region space vaddr (page_up size)
  bump space (page_up size)
  pure vaddr

unfoldable pub vm_alloc_at : ℕ → ℕ → ℕ → ℕ → Cmd Machine ℕ
vm_alloc_at space vaddr size flags = do
  assert (not (space == 0))
  assert (vaddr % 0x1000 == 0)
  assert (ltb 0 size)
  alloc_loop (page_up size / 0x1000 + 1) space vaddr (page_up size) flags 0
  record_region space vaddr (page_up size)
  pure vaddr

unfoldable pub vm_map : ℕ → ℕ → ℕ → ℕ → Cmd Machine ℕ
vm_map space paddr size flags = do
  assert (not (space == 0))
  assert (paddr % 0x1000 == 0)
  assert (ltb 0 size)
  vaddr ← reserve space (page_up size)
  pml4 ← load (space_pml4 space)
  paging_map_page pml4 vaddr paddr (page_up size) flags
  record_region space vaddr (page_up size)
  bump space (page_up size)
  pure vaddr

unfoldable pub vm_map_at : ℕ → ℕ → ℕ → ℕ → ℕ → Cmd Machine ℕ
vm_map_at space vaddr paddr size flags = do
  assert (not (space == 0))
  assert (vaddr % 0x1000 == 0)
  assert (paddr % 0x1000 == 0)
  assert (ltb 0 size)
  pml4 ← load (space_pml4 space)
  paging_map_page pml4 vaddr paddr (page_up size) flags
  record_region space vaddr (page_up size)
  pure vaddr

-- The region at `region` is the caller's, and its base is a physical address.
unfoldable pub vm_map_region : ℕ → ℕ → ℕ → Cmd Machine ℕ
vm_map_region space region flags = do
  assert (not (space == 0))
  assert (not (region == 0))
  base ← load (region_base region)
  size ← load (region_size region)
  assert (base % 0x1000 == 0)
  assert (ltb 0 size)
  vaddr ← reserve space (page_up size)
  pml4 ← load (space_pml4 space)
  paging_map_page pml4 vaddr base (page_up size) flags
  store (region_size region) (page_up size)
  region_insert space region
  bump space (page_up size)
  pure vaddr

-- `for (i = from; i < size; i += 0x1000)`: the frames behind the pages are given back.
unfoldable pub free_loop : ℕ → ℕ → ℕ → ℕ → ℕ → Cmd Machine (Unit {0})
free_loop zero space vaddr size i = λ _. out_of_fuel
free_loop (suc fuel) space vaddr size i =
    let rest = (do
      pml4 ← load (space_pml4 space)
      entry ← paging_get_entry pml4 (u64 (vaddr + i))
      if present entry then frame_free (bit_and entry entry_4k_address_mask) else pure tt
      free_loop fuel space vaddr size (u64 (i + 0x1000))) in
    if ltb i size then rest else pure tt

-- `fuel` bounds the number of regions in the list.
unfoldable pub vm_free : ℕ → ℕ → ℕ → ℕ → Cmd Machine (Unit {0})
vm_free fuel space vaddr size = do
  assert (not (space == 0))
  assert (vaddr % 0x1000 == 0)
  assert (ltb 0 size)
  free_loop (page_up size / 0x1000 + 1) space vaddr (page_up size) 0
  pml4 ← load (space_pml4 space)
  paging_unmap_page pml4 vaddr (page_up size)
  r ← region_remove fuel space vaddr
  if r == 0 then pure tt else (λ s. frame_free (sub64 r s.offset) s)

-- The register cr3 takes the physical address of the tables.
unfoldable pub vm_switch : ℕ → Cmd Machine (Unit {0})
vm_switch space = do
  assert (not (space == 0))
  pml4 ← load (space_pml4 space)
  λ s. ok tt (record s { cr3 = sub64 pml4 s.offset })

unfoldable pub vm_virt_to_phys : ℕ → ℕ → Cmd Machine ℕ
vm_virt_to_phys space vaddr = do
  assert (not (space == 0))
  pml4 ← load (space_pml4 space)
  entry ← paging_get_entry pml4 vaddr
  assert (present entry)
  pure (bit_or (bit_and entry entry_4k_address_mask) (bit_and vaddr 0xFFF))

-- `while (r)`, with fuel.
unfoldable pub destroy_loop : ℕ → ℕ → ℕ → Cmd Machine (Unit {0})
destroy_loop zero space r = λ _. out_of_fuel
destroy_loop (suc fuel) space r = if r == 0 then pure tt else do
  next ← load (region_next r)
  base ← load (region_base r)
  size ← load (region_size r)
  vm_free (suc fuel) space base size
  destroy_loop fuel space next

unfoldable pub vm_space_destroy : ℕ → ℕ → Cmd Machine (Unit {0})
vm_space_destroy fuel space = do
  assert (not (space == 0))
  r ← load (space_regions space)
  destroy_loop fuel space r
