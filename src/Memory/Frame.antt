-- ===== src/Memory/Frame.antt =====
-- kernel/src/memory/frame.c: the list of free page frames, linked through their first words.
pub mod FreeList
pub mod Taken
pub mod Init
pub mod Usable
use dos_kernel.Common.{
  ℕ, zero, suc, ◌+◌, ◌/◌, List, [], ◌∷◌, u64, ltb, ◌==◌, if◌then◌else◌, Cmd, ok, out_of_fuel, pure,
  ◌>>=◌, ◌>>◌,
}
use dos_kernel.Memory.Machine.{Machine, phys_virt, write}

unfoldable pub frame_alloc : Cmd Machine ℕ
frame_alloc s =
    if s.page_list == 0
    then ok 0 s
    else ok s.page_list (record s { page_list = s.mem (phys_virt s.offset s.page_list) })

unfoldable pub frame_free : ℕ → Cmd Machine (Unit {0})
frame_free ptr s =
    ok tt (record s { mem = write s.mem (phys_virt s.offset ptr) s.page_list; page_list = ptr })

-- A `struct limine_memmap_entry`.
pub record MemmapEntry : Type 0 where
  pub base : ℕ
  pub length : ℕ
  pub type : ℕ

-- `for (j = base; j < base + length; j += 4096)`, with fuel.
pub free_pages : ℕ → ℕ → ℕ → Cmd Machine (Unit {0})
free_pages zero j end = λ _. out_of_fuel
free_pages (suc fuel) j end =
    let rest = frame_free j >> free_pages fuel (u64 (j + 4096)) end in
    if ltb j end then rest else pure tt

-- frame_init over the boot loader's memory map. `usable` is LIMINE_MEMMAP_USABLE of its header.
pub frame_init : ℕ → List MemmapEntry → Cmd Machine (Unit {0})
frame_init usable [] = pure tt
frame_init usable (entry ∷ map) =
    (if entry.type == usable
      then free_pages (entry.length / 4096 + 2) entry.base (u64 (entry.base + entry.length))
      else pure tt)
    >> frame_init usable map
