-- ===== src/Tests/Fresh.antt =====
-- The first mapping in a new address space at a concrete state.
use dos_kernel.Common.{
  ℕ, ◌+◌, ◌*◌, ◌^◌, ◌≡◌, refl, arith, List, [], ◌∷◌, none, some, ◌==◌, if◌then◌else◌, ◌>>=◌,
}
use dos_kernel.Memory.Machine.{Machine, phys_virt}
use dos_kernel.Memory.Frame.FreeList.{IsFreeList, HasFree}
use dos_kernel.Memory.Paging.{present, child_at}
use dos_kernel.Memory.Paging.Tree.{Owner, Tables}
use dos_kernel.Memory.Paging.Walk.{Ready}
use dos_kernel.Memory.Paging.Range.{mapped}
use dos_kernel.Memory.Vm.{vm_map, vm_space_create}
use dos_kernel.Memory.Vm.Create.{Opened}
use dos_kernel.Memory.Vm.Map.{Mapped}
use dos_kernel.Memory.Vm.Fresh.{vm_map-Opened}

-- Six free frames, each linked to the next, and the kernel's root table without entries at the frame 0x9000.
abbrev words : ℕ → ℕ
words a =
    if a == 2 ^ 40 + 0x1000
    then 0x2000
    else if a == 2 ^ 40 + 0x2000
    then 0x3000
    else if a == 2 ^ 40 + 0x3000
    then 0x4000
    else if a == 2 ^ 40 + 0x4000
    then 0x5000
    else if a == 2 ^ 40 + 0x5000
    then 0x6000
    else 0

abbrev six_frames : Machine
six_frames = record {
  mem = words;
  offset = 2 ^ 40;
  page_list = 0x1000;
  kernel_pml4 = 2 ^ 40 + 0x9000;
  free_list = 0;
  heap_top = 0;
  cr3 = 0;
  flushed = [];
}

abbrev later_frames : List ℕ
later_frames = 0x3000 ∷ 0x4000 ∷ 0x5000 ∷ 0x6000 ∷ []

abbrev kernel_alone : Owner
kernel_alone t = if t == 2 ^ 40 + 0x9000 then some (3, 0) else none

six_frames-HasFree : HasFree six_frames (0x1000 ∷ 0x2000 ∷ later_frames)
unfolding phys_virt
six_frames-HasFree = IsFreeList.cons (omega arith) (omega arith) refl (
    IsFreeList.cons (omega arith) (omega arith) refl (
      IsFreeList.cons (omega arith) (omega arith) refl (
        IsFreeList.cons (omega arith) (omega arith) refl (
          IsFreeList.cons (omega arith) (omega arith) refl
            (IsFreeList.cons (omega arith) (omega arith) refl IsFreeList.nil)))))

kernel_alone-Tables : Tables kernel_alone six_frames
unfolding present child_at
kernel_alone-Tables = record {
  aligned = λ t e. ground arith;
  child =
      λ t l p i e h q. absurd (let z : words (t + 8 * i) ≡ 0 = ground arith in ground (arith, z));
}

six_frames-Ready : Ready kernel_alone six_frames (0x1000 ∷ 0x2000 ∷ later_frames)
unfolding phys_virt
six_frames-Ready = record {
  tables = kernel_alone-Tables;
  apart = record {
    window = (refl, omega arith);
    free = six_frames-HasFree;
    pages = λ a h. ground arith;
  };
}

vm_map-Opened_example :
    (o : Opened kernel_alone 0x800000 0x100000 later_frames six_frames
      (vm_space_create 0x800000 0x100000 six_frames))
    × Mapped o.space o.root 0x800000 1 (mapped 0xFEE00000 3) [] o.after (
        (vm_space_create 0x800000 0x100000 >>= λ space. vm_map space 0xFEE00000 0x1000 3)
          six_frames)
vm_map-Opened_example =
    vm_map-Opened kernel_alone six_frames 0x1000 0x2000 later_frames 0x800000 0x100000 0xFEE00000
      0x1000 3 six_frames-Ready (omega arith, omega arith) refl (omega arith) (omega arith) refl
      refl (omega arith) (omega arith) (omega arith) (omega arith)
