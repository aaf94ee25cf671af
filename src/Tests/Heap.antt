-- ===== src/Tests/Heap.antt =====
-- The theorems on the heap at a concrete heap: one page with a block of 16 bytes in use and a free block behind it,
-- and eight free frames.
use dos_kernel.Common.{
  ℕ, ◌+◌, ◌-◌, ◌^◌, ◌%◌, ◌≡◌, ◌≢◌, inl, refl, arith, List, [], ◌∷◌, none, some, leb, ltb, ◌==◌,
  ◌&&◌, if◌then◌else◌, ok, ◌>>=◌,
}
use dos_kernel.Memory.Machine.{Machine, phys_virt}
use dos_kernel.Memory.Frame.FreeList.{IsFreeList}
use dos_kernel.Memory.Paging.{present, child_at, entry_from}
use dos_kernel.Memory.Paging.Tree.{Owner, Tables}
use dos_kernel.Memory.Heap.{kmalloc, kfree, krealloc, heap_expand, align16}
use dos_kernel.Memory.Heap.Blocks.{IsBlocks, first_fit}
use dos_kernel.Memory.Heap.Space.{IsHeap}
use dos_kernel.Memory.Heap.Expand.{Expanded, heap_expand-Expanded}
use dos_kernel.Memory.Heap.Calls.{Allocates, kmalloc-Allocates, kfree-IsHeap}
use dos_kernel.Memory.Heap.Cycle.{Cycled, kmalloc-kfree}
use dos_kernel.Memory.Heap.Large.{Starves, kmalloc-Starves}
use dos_kernel.Memory.Heap.Move.{Moves, krealloc-Moves}

-- HEAP_START
abbrev start : ℕ
start = 0xFFFF900000000000

abbrev words : ℕ → ℕ
words a =
    if a == start + 8
    then 16
    else if a == start + 48
    then 4032
    else if leb (2 ^ 40 + 0x1000) a && ltb a (2 ^ 40 + 0x8000) && a % 0x1000 == 0
    then a + 0x1000 - 2 ^ 40
    else 0

abbrev one_page : Machine
one_page = record {
  mem = words;
  offset = 2 ^ 40;
  page_list = 0x1000;
  kernel_pml4 = 0x4000;
  free_list = start + 40;
  heap_top = start + 0x1000;
  cr3 = 0;
  flushed = [];
}

abbrev frames : List ℕ
frames = 0x1000 ∷ 0x2000 ∷ 0x3000 ∷ 0x4000 ∷ 0x5000 ∷ 0x6000 ∷ 0x7000 ∷ 0x8000 ∷ []

abbrev free_blocks : List (ℕ × ℕ)
free_blocks = (start + 40, 4032) ∷ []

frames_free : IsFreeList (2 ^ 40) words 0x1000 frames
unfolding phys_virt
frames_free = IsFreeList.cons (omega arith) (omega arith) refl (
    IsFreeList.cons (omega arith) (omega arith) refl (
      IsFreeList.cons (omega arith) (omega arith) refl (
        IsFreeList.cons (omega arith) (omega arith) refl (
          IsFreeList.cons (omega arith) (omega arith) refl (
            IsFreeList.cons (omega arith) (omega arith) refl (
              IsFreeList.cons (omega arith) (omega arith) refl
                (IsFreeList.cons (omega arith) (omega arith) refl IsFreeList.nil)))))))

-- The root table at 0x4000 is the only table.
abbrev root_alone : Owner
root_alone t = if t == 0x4000 then some (3, 0) else none

root_alone-Tables : Tables root_alone one_page
unfolding present child_at
root_alone-Tables = record { aligned = λ t e. ground arith; child = λ t l p i e h q. ground arith }

one_page-IsHeap : IsHeap root_alone frames start free_blocks one_page
unfolding phys_virt
one_page-IsHeap = record {
  ready = record {
    tables = root_alone-Tables;
    apart = record {
      window = (refl, omega arith);
      free = frames_free;
      pages = λ a h. ground arith;
    };
  };
  root_owned = refl;
  held = λ q low high whole. record {
    whole = whole;
    no_table = ground arith;
    no_frame = λ f h. ground arith;
  };
  whole = (refl, refl);
  range = (omega arith, omega arith, omega arith);
  blocks = IsBlocks.block (omega arith) (omega arith) refl tt IsBlocks.end;
  placed = (omega arith, omega arith, tt);
}

heap_expand-Expanded_example :
    Expanded root_alone frames start 2 free_blocks one_page (heap_expand 2 one_page)
heap_expand-Expanded_example =
    heap_expand-Expanded 2 root_alone frames start free_blocks one_page one_page-IsHeap
      (omega arith) (omega arith) (omega arith)

-- The free block has too few bytes, so a page is added.
kmalloc-Allocates_example :
    Allocates root_alone start
      (align16 4060)
      1
      free_blocks
      one_page
      (start + 0x1000, 4072, free_blocks)
      (kmalloc 4 4060 one_page)
unfolding first_fit
kmalloc-Allocates_example =
    kmalloc-Allocates root_alone frames start 2 4060 free_blocks one_page one_page-IsHeap
      (omega arith) (omega arith) (omega arith) (omega arith) (omega arith)

kfree-IsHeap_example :
    (t : Machine) × (kfree (start + 24) one_page ≡ ok tt t)
    × IsHeap root_alone frames start ((start, 16) ∷ free_blocks) t
    × ((w : ℕ) → entry_from 3 0x4000 w t ≡ entry_from 3 0x4000 w one_page)
    × ((a : ℕ) → a ≢ start + 16 → t.mem a ≡ words a)
kfree-IsHeap_example =
    kfree-IsHeap root_alone frames start start 16 free_blocks one_page one_page-IsHeap (omega arith)
      (omega arith) (omega arith) refl (inl (omega arith), tt)

krealloc-Moves_example :
    Moves root_alone start start 16 one_page
      (start + 40, 32, (start + 96, 3976) ∷ [])
      (krealloc 4 (start + 24) 20 one_page)
unfolding first_fit
krealloc-Moves_example =
    krealloc-Moves root_alone frames start 2 start 16 20 free_blocks one_page one_page-IsHeap
      (omega arith) (omega arith) refl (inl (omega arith), tt) (omega arith) (omega arith)
      (omega arith) (omega arith) (omega arith)

-- 4080 bytes need two pages, and no block of them fits.
kmalloc-Starves_example :
    Starves root_alone frames start 4080 3 2 free_blocks one_page (kmalloc 4 4080 one_page)
unfolding first_fit
kmalloc-Starves_example =
    kmalloc-Starves 1 3 4080 root_alone frames start free_blocks one_page one_page-IsHeap
      (omega arith) (omega arith) refl refl (omega arith) (omega arith) (omega arith)

kmalloc-kfree_example :
    (t : Machine) × ((kmalloc 4 4060 >>= kfree) one_page ≡ ok tt t) × Cycled start 8152 t
unfolding first_fit
kmalloc-kfree_example =
    kmalloc-kfree root_alone frames start 2 4060 free_blocks one_page one_page-IsHeap (omega arith)
      (omega arith) (omega arith) (omega arith) (omega arith)
