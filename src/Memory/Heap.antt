-- ===== src/Memory/Heap.antt =====
-- kernel/src/memory/heap.c: blocks of the kernel heap, linked through their headers. A block_t is three
-- fields: magic, size and next. Heap pages are used through their heap addresses alone.
pub mod Align
pub mod Alloc
pub mod Blocks
pub mod Large
pub mod Move
pub mod Page
pub mod Reuse
pub mod Calls
pub mod Cycle
pub mod Expand
pub mod Fit
pub mod Search
pub mod Space
pub mod Split
use dos_kernel.Common.{
  ℕ, zero, suc, ◌+◌, ◌-◌, ◌/◌, ◌^◌, bit_and, bit_or, u64, sub64, not, ltb, leb, ◌&&◌, ◌==◌,
  if◌then◌else◌, Cmd, ok, out_of_fuel, pure, ◌>>=◌, ◌>>◌,
}
use dos_kernel.Memory.Machine.{Machine, load, store}
use dos_kernel.Memory.Frame.{frame_alloc}
use dos_kernel.Memory.Paging.{entry_flag_present, entry_flag_rw, paging_map_page}

abbrev pub heap_magic : ℕ
heap_magic = 0xDEADBEEFCAFEBABE

-- `sizeof(block_t)`
abbrev pub block_bytes : ℕ
block_bytes = 24

abbrev pub block_magic : ℕ → ℕ
block_magic blk = blk

abbrev pub block_size : ℕ → ℕ
block_size blk = blk + 8

abbrev pub block_next : ℕ → ℕ
block_next blk = blk + 16

abbrev pub set_free_list : ℕ → Cmd Machine (Unit {0})
set_free_list blk s = ok tt (record s { free_list = blk })

unfoldable pub heap_expand : ℕ → Cmd Machine (Unit {0})
heap_expand zero = pure tt
heap_expand (suc pages) = do
  phys ← frame_alloc
  blk ← (λ s. ok s.heap_top s)
  pml4 ← (λ s. ok s.kernel_pml4 s)
  paging_map_page pml4 blk phys 0x1000 (bit_or entry_flag_present entry_flag_rw)
  store (block_magic blk) heap_magic
  store (block_size blk) (0x1000 - block_bytes)
  (λ s. store (block_next blk) s.free_list s)
  set_free_list blk
  (λ s. ok tt (record s { heap_top = u64 (s.heap_top + 0x1000) }))
  heap_expand pages

-- The split of a block that is large enough for another one behind it.
unfoldable pub split : ℕ → ℕ → Cmd Machine (Unit {0})
split cur size = do
  all ← load (block_size cur)
  if ltb all (u64 (size + block_bytes + 16)) then pure tt else do
    next ← load (block_next cur)
    store (block_magic (cur + block_bytes + size)) heap_magic
    store (block_size (cur + block_bytes + size)) (sub64 (sub64 all size) block_bytes)
    store (block_next (cur + block_bytes + size)) next
    store (block_size cur) size
    store (block_next cur) (cur + block_bytes + size)

-- A block that fits is cut off the list. `prev` is 0 for the first block.
unfoldable pub take_block : ℕ → ℕ → ℕ → Cmd Machine ℕ
take_block prev cur size = do
  split cur size
  next ← load (block_next cur)
  if prev == 0 then set_free_list next else store (block_next prev) next
  store (block_next cur) 0
  pure (cur + block_bytes)

-- `while (cur)`, with fuel; 0 when no block fits.
unfoldable pub search : ℕ → ℕ → ℕ → ℕ → Cmd Machine ℕ
search zero prev cur size = λ _. out_of_fuel
search (suc fuel) prev cur size = if cur == 0 then pure 0 else do
  all ← load (block_size cur)
  if leb size all
      then take_block prev cur size
      else do next ← load (block_next cur); search fuel cur next size

abbrev pub align16 : ℕ → ℕ
align16 size = bit_and (u64 (size + 15)) (2 ^ 64 - 1 - 15)

-- `fuel` bounds the search and the calls of kmalloc by itself.
unfoldable pub kmalloc : ℕ → ℕ → Cmd Machine ℕ
kmalloc zero size = λ _. out_of_fuel
kmalloc (suc fuel) size = if size == 0 then pure 0 else do
  first ← (λ s. ok s.free_list s)
  p ← search (suc fuel) 0 first (align16 size)
  if not (p == 0) then pure p else do
    heap_expand (u64 (align16 size + block_bytes + 0xFFF) / 0x1000)
    kmalloc fuel (align16 size)

unfoldable pub kfree : ℕ → Cmd Machine (Unit {0})
kfree ptr = if ptr == 0 then pure tt else do
  (λ s. store (block_next (sub64 ptr block_bytes)) s.free_list s)
  set_free_list (sub64 ptr block_bytes)

-- `memcpy(to, from, n)` for whole fields.
abbrev pub copy : ℕ → ℕ → ℕ → Cmd Machine (Unit {0})
copy to from n s = ok tt (record s {
  mem = λ b. if leb to b && ltb b (to + n) then s.mem (from + (b - to)) else s.mem b;
})

unfoldable pub krealloc : ℕ → ℕ → ℕ → Cmd Machine ℕ
krealloc fuel ptr size =
    if ptr == 0 then kmalloc fuel size else if size == 0 then (do kfree ptr; pure 0) else do
      old ← load (block_size (sub64 ptr block_bytes))
      if leb size old then pure ptr else do
        new_ptr ← kmalloc fuel size
        if new_ptr == 0 then pure 0 else do
          n ← load (block_size (sub64 ptr block_bytes))
          copy new_ptr ptr n
          kfree ptr
          pure new_ptr
