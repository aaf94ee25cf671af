-- ===== src/Memory/Vm/Fresh.antt =====
-- The first mapping in a new address space, as enable_apic of kernel/src/x86_64/apic.c makes it.
use dos_kernel.Common.{
  ℕ, ◌+◌, ◌*◌, ◌%◌, ◌^◌, ◌≤◌, ◌<◌, ◌≡◌, ◌∙◌, arith, some, List, [], ◌∷◌, length, u64, ◌>>=◌,
}
use dos_kernel.Memory.Machine.{Machine}
use dos_kernel.Memory.Paging.Tree.{Owner}
use dos_kernel.Memory.Paging.Walk.{Ready}
use dos_kernel.Memory.Paging.Range.{mapped}
use dos_kernel.Memory.Vm.{vm_space_create, vm_map}
use dos_kernel.Memory.Vm.Create.{Opened, vm_space_create-Opened}
use dos_kernel.Memory.Vm.Map.{Mapped, pages_of, vm_map-Mapped}

-- vm_space_create and then vm_map, with two free frames, one for the region and three for each page, return the base
-- of the space and map the pages there, when the rounded size fits into the space and nothing wraps.
pub vm_map-Opened :
    (own : Owner) (s : Machine) (f f' : ℕ) (ps : List ℕ) (base size paddr len flags : ℕ)
    → Ready own s (f ∷ f' ∷ ps)
    → (0 < s.offset) × (s.offset + 2 ^ 52 ≤ 2 ^ 64)
    → own s.kernel_pml4 ≡ some (3, 0)
    → 0 < len
    → len < 2 ^ 47
    → base % 4096 ≡ 0
    → paddr % 4096 ≡ 0
    → pages_of len * 4096 ≤ size
    → base + size < 2 ^ 64
    → paddr + pages_of len * 4096 ≤ 2 ^ 64
    → 3 * pages_of len + 1 ≤ length ps
    → (o : Opened own base size ps s (vm_space_create base size s)) × Mapped o.space o.root base
        (pages_of len)
        (mapped paddr flags)
        []
        o.after
        ((vm_space_create base size >>= λ space. vm_map space paddr len flags) s)
vm_map-Opened own s f f' ps base size paddr len flags ready window kernel pos small ba pa room fits
      hp enough =
    let o = vm_space_create-Opened own s f f' ps base size ready window kernel in
    let plain : u64 (base + size) ≡ base + size = omega arith in
    let end : o.after.mem (o.space + 16) ≡ base + size = o.end ∙ plain in
    (
      o,
      rw o.runs (
          vm_map-Mapped _ ps o.space o.root base paddr len flags [] o.after o.is_space o.nonzero
            o.start pos small ba pa (omega (arith, end)) (omega (arith, end)) hp enough),
    )
