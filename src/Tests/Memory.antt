-- ===== src/Tests/Memory.antt =====
-- The memory theorems at concrete states.
use dos_kernel.Common.{ℕ, ◌+◌, ◌^◌, refl, arith, List, [], ◌∷◌, none, some, ◌==◌, if◌then◌else◌}
use dos_kernel.Memory.Machine.{Machine, phys_virt}
use dos_kernel.Memory.Frame.{MemmapEntry, frame_alloc, frame_init}
use dos_kernel.Memory.Frame.FreeList.{IsFreeList, HasFree, Allocated, frame_alloc-Allocated}
use dos_kernel.Memory.Frame.Init.{usable_frames, Leaves}
use dos_kernel.Memory.Frame.Usable.{frame_init-Leaves}
use dos_kernel.Memory.Paging.{map_page, unmap_page, leaf_entry, present, child_at}
use dos_kernel.Memory.Paging.Tree.{Owner, Tables}
use dos_kernel.Memory.Paging.Walk.{Ready}
use dos_kernel.Memory.Paging.Map.{Sets, map_page-Sets, unmap_page-Sets}
use dos_kernel.Memory.Vm.{region_remove}
use dos_kernel.Memory.Vm.Regions.{IsRegions, HasRegions, Removed, region_remove-Removed}

-- Three free frames behind a window at 2 ^ 40, and a root table without entries.
abbrev window : ℕ
window = 2 ^ 40

abbrev words : ℕ → ℕ
words a = if a == 2 ^ 40 + 0x1000 then 0x2000 else if a == 2 ^ 40 + 0x2000 then 0x3000 else 0

abbrev three_frames : Machine
three_frames = record {
  mem = words;
  offset = window;
  page_list = 0x1000;
  kernel_pml4 = 0;
  free_list = 0;
  heap_top = 0;
  cr3 = 0;
  flushed = [];
}

three_frames-HasFree : HasFree three_frames (0x1000 ∷ 0x2000 ∷ 0x3000 ∷ [])
unfolding phys_virt
three_frames-HasFree = IsFreeList.cons (omega arith) (omega arith) refl (
    IsFreeList.cons (omega arith) (omega arith) refl
      (IsFreeList.cons (omega arith) (omega arith) refl IsFreeList.nil))

frame_alloc-Allocated_example :
    Allocated three_frames (0x1000 ∷ 0x2000 ∷ 0x3000 ∷ []) (frame_alloc three_frames)
frame_alloc-Allocated_example =
    frame_alloc-Allocated three_frames (0x1000 ∷ 0x2000 ∷ 0x3000 ∷ []) three_frames-HasFree

abbrev empty_machine : Machine
empty_machine = record {
  mem = λ a. 0;
  offset = window;
  page_list = 0;
  kernel_pml4 = 0;
  free_list = 0;
  heap_top = 0;
  cr3 = 0;
  flushed = [];
}

abbrev memmap : List MemmapEntry
memmap =
    record { base = 0x1000; length = 0x2000; type = 0 }
    ∷ record { base = 0x3000; length = 0x800; type = 1 }
    ∷ record { base = 0x8000; length = 0x1000; type = 0 }
    ∷ []

frame_init-Leaves_example :
    Leaves empty_machine (usable_frames 0 memmap []) (frame_init 0 memmap empty_machine)
frame_init-Leaves_example =
    frame_init-Leaves 0 memmap empty_machine
      (
        λ y. (omega arith, refl, omega arith),
        (λ y. ground arith, (λ y. (omega arith, refl, omega arith), tt)),
      )
      refl

-- The root table at 0x4000 is the one in use.
abbrev root_alone : Owner
root_alone t = if t == 0x4000 then some (3, 0) else none

root_alone-Tables : Tables root_alone three_frames
unfolding present child_at
root_alone-Tables = record { aligned = λ t e. ground arith; child = λ t l p i e h q. ground arith }

three_frames-Ready : Ready root_alone three_frames (0x1000 ∷ 0x2000 ∷ 0x3000 ∷ [])
unfolding phys_virt
three_frames-Ready = record {
  tables = root_alone-Tables;
  apart = record {
    window = (refl, omega arith);
    free = three_frames-HasFree;
    pages = λ a h. ground arith;
  };
}

map_page-Sets_example :
    Sets root_alone
      (0x1000 ∷ 0x2000 ∷ 0x3000 ∷ [])
      0x4000
      0xFFFF800000003000
      (leaf_entry 0x5000 3)
      three_frames
      (map_page 0x4000 0xFFFF800000003000 0x5000 3 three_frames)
map_page-Sets_example =
    map_page-Sets root_alone three_frames (0x1000 ∷ 0x2000 ∷ 0x3000 ∷ []) 0x4000 0xFFFF800000003000
      0x5000 3 three_frames-Ready refl (omega arith)

unmap_page-Sets_example :
    Sets root_alone
      (0x1000 ∷ 0x2000 ∷ 0x3000 ∷ [])
      0x4000
      0xFFFF800000003000
      0
      three_frames
      (unmap_page 0x4000 0xFFFF800000003000 three_frames)
unmap_page-Sets_example =
    unmap_page-Sets root_alone three_frames (0x1000 ∷ 0x2000 ∷ 0x3000 ∷ []) 0x4000
      0xFFFF800000003000 three_frames-Ready refl

-- Two regions at 0x100 and 0x200 of the space at 0x300.
abbrev regions : ℕ → ℕ
regions a =
    if a == 0x320
    then 0x100
    else if a == 0x100
    then 0x9000
    else if a == 0x110
    then 0x200
    else if a == 0x200
    then 0xA000
    else 0

abbrev two_regions : Machine
two_regions = record empty_machine { mem = regions }

two_regions-HasRegions : HasRegions 0x300 two_regions ((0x100, 0x9000) ∷ (0x200, 0xA000) ∷ [])
two_regions-HasRegions =
    IsRegions.cons (omega arith) refl ((omega arith, omega arith), tt)
      ((omega arith, omega arith), tt) (IsRegions.cons (omega arith) refl tt tt IsRegions.nil)

region_remove-Removed_example :
    Removed 0xA000
      (0x300 + 32)
      ((0x100, 0x9000) ∷ (0x200, 0xA000) ∷ [])
      two_regions
      (region_remove 3 0x300 0xA000 two_regions)
region_remove-Removed_example =
    region_remove-Removed 3 0x300 0xA000 ((0x100, 0x9000) ∷ (0x200, 0xA000) ∷ []) two_regions
      (omega arith) two_regions-HasRegions
      ((omega arith, omega arith), ((omega arith, omega arith), tt))
