-- ===== src/Tests/Space.antt =====
-- The theorems on address spaces and on copies of memory at concrete states.
use dos_kernel.Common.{
  ℕ, ◌+◌, ◌*◌, ◌^◌, ◌≡◌, refl, arith, List, [], ◌∷◌, none, some, ◌==◌, if◌then◌else◌, ok, inl,
}
use dos_kernel.Memory.Machine.{Machine, phys_virt}
use dos_kernel.Memory.Bytes.{Bytes, memcpy, memmove}
use dos_kernel.Memory.Bytes.Copy.{copied, memmove-copied, memcpy-memmove}
use dos_kernel.Memory.Frame.FreeList.{IsFreeList, HasFree}
use dos_kernel.Memory.Paging.{paging_map_page, paging_unmap_page, present, child_at}
use dos_kernel.Memory.Paging.Tree.{Owner, Tables}
use dos_kernel.Memory.Paging.Walk.{Ready}
use dos_kernel.Memory.Paging.Range.{
  MapsFlushed, mapped, paging_map_page-Maps, paging_unmap_page-Maps,
}
use dos_kernel.Memory.Paging.Held.{Held}
use dos_kernel.Memory.Vm.{vm_map, vm_alloc, vm_virt_to_phys, vm_space_create}
use dos_kernel.Memory.Vm.Alloc.{Allots, vm_alloc-Allots}
use dos_kernel.Memory.Vm.Translate.{vm_virt_to_phys-vm_map}
use dos_kernel.Memory.Vm.Create.{Opened, vm_space_create-Opened}
use dos_kernel.Memory.Vm.Regions.{IsRegions}
use dos_kernel.Memory.Vm.Space.{IsSpace}
use dos_kernel.Memory.Vm.Map.{Mapped, vm_map-Mapped}

abbrev squares : Bytes
squares a = a * a

-- The ranges from 10 to 14 and from 12 to 16 overlap.
memmove-copied_example : memmove 12 10 4 squares 13 ≡ copied 12 10 4 squares 13
memmove-copied_example = memmove-copied 12 10 4 squares 13 (omega arith) (omega arith)

memcpy-memmove_example : memcpy 10 12 4 squares 11 ≡ memmove 10 12 4 squares 11
memcpy-memmove_example =
    memcpy-memmove 10 12 4 squares 11 (omega arith) (omega arith) (inl (omega arith))

-- Five free frames from 0x1000 on, a root table without entries at the frame 0x6000, and a space at the
-- frame 0x7000, all seen through a window at 2 ^ 40.
abbrev words : ℕ → ℕ
words a =
    if a == 2 ^ 40 + 0x1000
    then 0x2000
    else if a == 2 ^ 40 + 0x2000
    then 0x3000
    else if a == 2 ^ 40 + 0x3000
    then 0x4000
    else if a == 2 ^ 40 + 0x4000
    then 0x5000
    else if a == 2 ^ 40 + 0x7000
    then 2 ^ 40 + 0x6000
    else if a == 2 ^ 40 + 0x7000 + 16
    then 0x900000
    else if a == 2 ^ 40 + 0x7000 + 24
    then 0x800000
    else 0

abbrev five_frames : Machine
five_frames = record {
  mem = words;
  offset = 2 ^ 40;
  page_list = 0x1000;
  kernel_pml4 = 2 ^ 40 + 0x6000;
  free_list = 0;
  heap_top = 0;
  cr3 = 0;
  flushed = [];
}

abbrev spare : List ℕ
spare = 0x1000 ∷ 0x2000 ∷ 0x3000 ∷ 0x4000 ∷ 0x5000 ∷ []

abbrev root_alone : Owner
root_alone t = if t == 2 ^ 40 + 0x6000 then some (3, 0) else none

five_frames-HasFree : HasFree five_frames spare
unfolding phys_virt
five_frames-HasFree = IsFreeList.cons (omega arith) (omega arith) refl (
    IsFreeList.cons (omega arith) (omega arith) refl (
      IsFreeList.cons (omega arith) (omega arith) refl (
        IsFreeList.cons (omega arith) (omega arith) refl
          (IsFreeList.cons (omega arith) (omega arith) refl IsFreeList.nil))))

root_alone-Tables : Tables root_alone five_frames
unfolding present child_at
root_alone-Tables = record {
  aligned = λ t e. ground arith;
  child =
      λ t l p i e h q. absurd (let z : words (t + 8 * i) ≡ 0 = ground arith in ground (arith, z));
}

five_frames-Ready : Ready root_alone five_frames spare
unfolding phys_virt
five_frames-Ready = record {
  tables = root_alone-Tables;
  apart = record {
    window = (refl, omega arith);
    free = five_frames-HasFree;
    pages = λ a h. ground arith;
  };
}

paging_map_page-Maps_example :
    MapsFlushed root_alone spare
      (2 ^ 40 + 0x6000)
      1
      0x800000
      (mapped 0x5000 3)
      five_frames
      (paging_map_page (2 ^ 40 + 0x6000) 0x800000 0x5000 (1 * 4096) 3 five_frames)
paging_map_page-Maps_example =
    paging_map_page-Maps root_alone five_frames spare (2 ^ 40 + 0x6000) 1 0x800000 0x5000 3
      five_frames-Ready refl (omega arith) refl refl (omega arith) (omega arith) (omega arith)

paging_unmap_page-Maps_example :
    MapsFlushed root_alone spare
      (2 ^ 40 + 0x6000)
      2
      0x800000
      (λ i. 0)
      five_frames
      (paging_unmap_page (2 ^ 40 + 0x6000) 0x800000 (2 * 4096) five_frames)
paging_unmap_page-Maps_example =
    paging_unmap_page-Maps root_alone five_frames spare (2 ^ 40 + 0x6000) 2 0x800000
      five_frames-Ready refl refl (omega arith) (omega arith)

five_frames-Held : Held root_alone (2 ^ 40) spare (2 ^ 40 + 0x7000)
unfolding phys_virt
five_frames-Held = record { whole = refl; no_table = refl; no_frame = λ f h. ground arith }

five_frames-IsSpace : IsSpace root_alone spare (2 ^ 40 + 0x7000) (2 ^ 40 + 0x6000) [] five_frames
five_frames-IsSpace = record {
  ready = five_frames-Ready;
  held = five_frames-Held;
  window = (omega arith, omega arith);
  tables = refl;
  root_owned = refl;
  chain = IsRegions.nil;
  regions = tt;
}

vm_map-Mapped_example :
    Mapped
      (2 ^ 40 + 0x7000)
      (2 ^ 40 + 0x6000)
      0x800000
      1
      (mapped 0x5000 3)
      []
      five_frames
      (vm_map (2 ^ 40 + 0x7000) 0x5000 100 3 five_frames)
vm_map-Mapped_example =
    vm_map-Mapped root_alone spare (2 ^ 40 + 0x7000) (2 ^ 40 + 0x6000) 0x800000 0x5000 100 3 []
      five_frames five_frames-IsSpace (omega arith) refl (omega arith) (omega arith) refl refl
      (omega arith) (omega arith) (omega arith) (omega arith)

vm_space_create-Opened_example :
    Opened root_alone 0x800000 0x100000
      (0x3000 ∷ 0x4000 ∷ 0x5000 ∷ [])
      five_frames
      (vm_space_create 0x800000 0x100000 five_frames)
vm_space_create-Opened_example =
    vm_space_create-Opened root_alone five_frames 0x1000 0x2000 (0x3000 ∷ 0x4000 ∷ 0x5000 ∷ [])
      0x800000 0x100000 five_frames-Ready (omega arith, omega arith) refl

vm_alloc-Allots_example :
    Allots spare
      (2 ^ 40 + 0x7000)
      (2 ^ 40 + 0x6000)
      0x800000
      1
      3
      []
      five_frames
      (vm_alloc (2 ^ 40 + 0x7000) 100 3 five_frames)
vm_alloc-Allots_example =
    vm_alloc-Allots root_alone spare (2 ^ 40 + 0x7000) (2 ^ 40 + 0x6000) 0x800000 100 3 []
      five_frames five_frames-IsSpace (omega arith) refl (omega arith) (omega arith) refl
      (omega arith) (omega arith) (omega arith)

vm_virt_to_phys-vm_map_example :
    (t : Machine) × (vm_map (2 ^ 40 + 0x7000) 0x5000 100 3 five_frames ≡ ok 0x800000 t)
    × (vm_virt_to_phys (2 ^ 40 + 0x7000) (0x800000 + 42) t ≡ ok (0x5000 + 42) t)
vm_virt_to_phys-vm_map_example =
    vm_virt_to_phys-vm_map root_alone spare (2 ^ 40 + 0x7000) (2 ^ 40 + 0x6000) 0x800000 0x5000 100
      3 42 [] five_frames five_frames-IsSpace (omega arith) refl (omega arith) (omega arith) refl
      refl (omega arith) (omega arith) (omega arith) (omega arith) (omega arith) (omega arith)
