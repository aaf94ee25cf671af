-- ===== src/Memory/Paging.antt =====
-- kernel/src/memory/paging.c: four levels of page tables in memory.
pub mod Entries
pub mod Tree
pub mod Grow
pub mod Walk
pub mod Leaf
pub mod Map
pub mod Range
pub mod Held
pub mod Identity
pub mod Create
use dos_kernel.Common.{
  ℕ, zero, suc, ◌+◌, ◌-◌, ◌*◌, ◌/◌, ◌%◌, ◌^◌, Bool, true, false, not, Option, none, some, bit_and,
  bit_or, u64, ltb, ◌==◌, ◌>>>◌, if◌then◌else◌, Cmd, ok, out_of_fuel, pure, assert, ◌>>=◌, ◌>>◌,
}
use dos_kernel.Memory.Machine.{Machine, load, store, memset_zero, write, invalidate_loop}
use dos_kernel.Memory.Frame.{frame_alloc}

abbrev pub entry_flag_present : ℕ
entry_flag_present = 2 ^ 0

abbrev pub entry_flag_rw : ℕ
entry_flag_rw = 2 ^ 1

abbrev pub entry_flag_user : ℕ
entry_flag_user = 2 ^ 2

abbrev pub entry_flag_pwt : ℕ
entry_flag_pwt = 2 ^ 3

abbrev pub entry_flag_pcd : ℕ
entry_flag_pcd = 2 ^ 4

abbrev pub entry_flag_nx : ℕ
entry_flag_nx = 2 ^ 63

abbrev pub entry_4k_address_mask : ℕ
entry_4k_address_mask = 0x000FFFFFFFFFF000

-- VADDR_TO_INDEX
unfoldable pub index : ℕ → ℕ → ℕ
index vaddr level = bit_and (vaddr >>> ((level - 1) * 9 + 12)) 0x1FF

-- `&table[i]`
unfoldable pub slot : ℕ → ℕ → ℕ
slot table i = u64 (table + 8 * i)

unfoldable pub present : ℕ → Bool
present entry = not (bit_and entry entry_flag_present == 0)

-- `(uint64_t *)(offset + (entry & ENTRY_4K_ADDRESS_MASK))`
unfoldable pub child_at : ℕ → ℕ → ℕ
child_at offset entry = u64 (offset + bit_and entry entry_4k_address_mask)

unfoldable pub intermediate_flags : ℕ → ℕ
intermediate_flags flags =
    if bit_and flags entry_flag_user == 0
    then bit_or entry_flag_present entry_flag_rw
    else bit_or (bit_or entry_flag_present entry_flag_rw) entry_flag_user

-- The body of `if ((entry & ENTRY_FLAG_PRESENT) == 0)` in map_page.
unfoldable pub new_table : ℕ → ℕ → Cmd Machine (Unit {0})
new_table at flags = do
  phys ← frame_alloc
  λ s. memset_zero (u64 (s.offset + phys)) 0x1000 s
  store at (bit_or (intermediate_flags flags) (bit_and phys entry_4k_address_mask))

-- One round of the loop of map_page: the table of the next level.
unfoldable pub descend : ℕ → ℕ → ℕ → ℕ → Cmd Machine ℕ
descend level table vaddr flags = do
  entry ← load (slot table (index vaddr level))
  if present entry then pure tt else new_table (slot table (index vaddr level)) flags
  linked ← load (slot table (index vaddr level))
  λ s. ok (child_at s.offset linked) s

-- `for (level = rounds + 1; level > 1; level--)`
unfoldable pub walk : ℕ → ℕ → ℕ → ℕ → Cmd Machine ℕ
walk zero table vaddr flags = pure table
walk (suc rounds) table vaddr flags = do
  next ← descend (rounds + 2) table vaddr flags
  walk rounds next vaddr flags

unfoldable pub leaf_entry : ℕ → ℕ → ℕ
leaf_entry paddr flags =
    bit_or (bit_or entry_flag_present (bit_and paddr entry_4k_address_mask)) flags

unfoldable pub map_page : ℕ → ℕ → ℕ → ℕ → Cmd Machine (Unit {0})
map_page pml4 vaddr paddr flags = do
  leaf ← walk 3 pml4 vaddr flags
  store (slot leaf (index vaddr 1)) (leaf_entry paddr flags)

-- The loop that unmap_page and paging_get_entry share; `none` is its early return.
unfoldable pub find : ℕ → ℕ → ℕ → Machine → Option ℕ
find zero table vaddr s = some table
find (suc rounds) table vaddr s =
    let entry = s.mem (slot table (index vaddr (rounds + 2))) in
    let rest = find rounds (child_at s.offset entry) vaddr s in if present entry then rest else none

unfoldable pub unmap_page : ℕ → ℕ → Cmd Machine (Unit {0})
unmap_page pml4 vaddr s = elim (find 3 pml4 vaddr s) [
  | none ↦ ok tt s
  | some leaf ↦ store (slot leaf (index vaddr 1)) 0 s
]

-- What paging_get_entry returns from the table `table` of `rounds` levels above the lowest.
unfoldable pub entry_from : ℕ → ℕ → ℕ → Machine → ℕ
entry_from rounds table vaddr s = elim (find rounds table vaddr s) [
  | none ↦ 0
  | some leaf ↦ s.mem (slot leaf (index vaddr 1))
]

unfoldable pub paging_get_entry : ℕ → ℕ → Cmd Machine ℕ
paging_get_entry pml4 vaddr s = ok (entry_from 3 pml4 vaddr s) s

-- `for (i = from; i < length; i += 0x1000)`, with fuel.
unfoldable pub map_loop : ℕ → ℕ → ℕ → ℕ → ℕ → ℕ → ℕ → Cmd Machine (Unit {0})
map_loop zero pml4 vaddr paddr length flags i = λ _. out_of_fuel
map_loop (suc fuel) pml4 vaddr paddr length flags i =
    let rest =
      map_page pml4 (u64 (vaddr + i)) (u64 (paddr + i)) flags
      >> map_loop fuel pml4 vaddr paddr length flags (u64 (i + 0x1000)) in
    if ltb i length then rest else pure tt

unfoldable pub paging_map_page : ℕ → ℕ → ℕ → ℕ → ℕ → Cmd Machine (Unit {0})
paging_map_page pml4 vaddr paddr length flags = do
  assert (vaddr % 0x1000 == 0)
  assert (paddr % 0x1000 == 0)
  assert (length % 0x1000 == 0)
  map_loop (length / 0x1000 + 1) pml4 vaddr paddr length flags 0
  invalidate_loop (length / 0x1000 + 1) vaddr length

unfoldable pub unmap_loop : ℕ → ℕ → ℕ → ℕ → ℕ → Cmd Machine (Unit {0})
unmap_loop zero pml4 vaddr length i = λ _. out_of_fuel
unmap_loop (suc fuel) pml4 vaddr length i =
    let rest =
      unmap_page pml4 (u64 (vaddr + i)) >> unmap_loop fuel pml4 vaddr length (u64 (i + 0x1000)) in
    if ltb i length then rest else pure tt

unfoldable pub paging_unmap_page : ℕ → ℕ → ℕ → Cmd Machine (Unit {0})
paging_unmap_page pml4 vaddr length = do
  assert (vaddr % 0x1000 == 0)
  assert (length % 0x1000 == 0)
  unmap_loop (length / 0x1000 + 1) pml4 vaddr length 0
  invalidate_loop (length / 0x1000 + 1) vaddr length

-- `for (i = from; rounds more; i++) pml4[i] = kernel_pml4[i]`
unfoldable pub copy_upper : ℕ → ℕ → ℕ → Cmd Machine (Unit {0})
copy_upper zero pml4 i = pure tt
copy_upper (suc rounds) pml4 i = do
  entry ← (λ s. load (slot s.kernel_pml4 i) s)
  store (slot pml4 i) entry
  copy_upper rounds pml4 (i + 1)

unfoldable pub paging_create_pml4 : Cmd Machine ℕ
paging_create_pml4 = do
  phys ← frame_alloc
  pml4 ← (λ s. ok (u64 (s.offset + phys)) s)
  memset_zero pml4 0x1000
  copy_upper 256 pml4 256
  pure pml4

unfoldable pub paging_get_current_pml4 : Cmd Machine ℕ
paging_get_current_pml4 s = ok (child_at s.offset s.cr3) s

-- `for (addr = from; rounds more; addr += 0x1000)`
unfoldable pub identity_loop : ℕ → ℕ → ℕ → Cmd Machine (Unit {0})
identity_loop zero pml4 addr = pure tt
identity_loop (suc rounds) pml4 addr =
    map_page pml4 addr addr (bit_or entry_flag_present entry_flag_rw)
    >> identity_loop rounds pml4 (addr + 0x1000)

abbrev pub set_kernel_pml4 : ℕ → Cmd Machine (Unit {0})
set_kernel_pml4 pml4 s = ok tt (record s { kernel_pml4 = pml4 })

-- The window is written out here, `0xFFFF800000000000`, where map_page uses `offset`. Reloading cr3
-- flushes the TLB and leaves the register as it was.
unfoldable pub paging_init : Cmd Machine (Unit {0})
paging_init = do
  pml4 ← (λ s. ok (child_at 0xFFFF800000000000 s.cr3) s)
  set_kernel_pml4 pml4
  identity_loop (0x400000 / 0x1000) pml4 0
