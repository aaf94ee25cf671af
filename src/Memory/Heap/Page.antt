-- ===== src/Memory/Heap/Page.antt =====
-- One round of heap_expand: a frame, its mapping at the top of the heap, and the header of a free block in it.
use dos_kernel.Common.{
  ℕ, suc, ◌+◌, ◌^◌, ◌≤◌, ◌<◌, ◌≡◌, ◌≢◌, refl, sym, ap, ◌∙◌, arith, false, List, [], ◌∷◌, length,
  ==_refl, u64, ok, Run,
}
use dos_kernel.Memory.Machine.{Machine, Memory, write}
use dos_kernel.Memory.Frame.{frame_alloc}
use dos_kernel.Memory.Frame.FreeList.{frame_alloc-Allocated, IsFreeList, has}
use dos_kernel.Memory.Frame.Taken.{Within}
use dos_kernel.Memory.Paging.{entry_from, find, paging_map_page}
use dos_kernel.Memory.Paging.Tree.{Owner}
use dos_kernel.Memory.Paging.Leaf.{page}
use dos_kernel.Memory.Paging.Range.{Maps, mapped, flushes, paging_map_page-Maps}
use dos_kernel.Memory.Vm.Map.{same_entry}
use dos_kernel.Memory.Heap.{heap_expand, heap_magic}
use dos_kernel.Memory.Heap.Blocks.{ApartAll, IsBlocks, block}
use dos_kernel.Memory.Heap.Space.{
  IsHeap, Placed, Placed-kept, Placed-higher, Confined-AllHeld, written-IsHeap, written-lookups,
}

-- The header of a new block.
abbrev headed : Memory → ℕ → ℕ → Memory
headed m blk list = write (write (write m blk heap_magic) (blk + 8) 4072) (blk + 16) list

ApartAll-above : (start top : ℕ) (bs : List (ℕ × ℕ)) → Placed start top bs → ApartAll top 4072 bs
ApartAll-above start top [] placed = tt
ApartAll-above start top ((p, n) ∷ bs) (low, fits, more) =
    (omega arith, ApartAll-above start top bs more)

-- A heap whose next spare frame was taken.
taken-IsHeap :
    {own : Owner} {f next : ℕ} {ps : List ℕ} {start : ℕ} {bs : List (ℕ × ℕ)} {s : Machine}
    → IsFreeList s.offset s.mem next ps
    → IsHeap own (f ∷ ps) start bs s
    → IsHeap own ps start bs (record s { page_list = next })
taken-IsHeap free is = record {
  ready = record {
    tables = record { aligned = is.ready.tables.aligned; child = is.ready.tables.child };
    apart = record {
      window = is.ready.apart.window;
      free = free;
      pages = λ a h. is.ready.apart.pages a (ground arith);
    };
  };
  root_owned = is.root_owned;
  held = λ q low high aligned.
      let h = is.held q low high aligned in
      record {
        whole = h.whole;
        no_table = h.no_table;
        no_frame = λ g i. h.no_frame g (ground arith);
      };
  whole = is.whole;
  range = is.range;
  blocks = is.blocks;
  placed = is.placed;
}

-- A heap whose tables were extended and whose new page was flushed.
mapped-IsHeap :
    {own : Owner} {ps : List ℕ} {start n v : ℕ} {e : ℕ → ℕ} {bs : List (ℕ × ℕ)} {s : Machine}
    {r : Run Machine (Unit {0})} (flushed : List ℕ) (m : Maps own ps s.kernel_pml4 n v e s r)
    → IsHeap own ps start bs s
    → IsHeap m.owner m.spare start bs (record m.after { flushed = flushed })
      × ((a : ℕ) → start ≤ a → a < 2 ^ 64 → m.after.mem a ≡ s.mem a)
mapped-IsHeap {start} flushed m is =
    let (held, words) = Confined-AllHeld start m.confined is.whole.0 is.held in
    let top : m.after.heap_top ≡ _ = ap (λ (x : Machine). x.heap_top) m.confined.rest in
    let list : m.after.free_list ≡ _ = ap (λ (x : Machine). x.free_list) m.confined.rest in
    let root : m.after.kernel_pml4 ≡ _ = ap (λ (x : Machine). x.kernel_pml4) m.confined.rest in
    let range = is.range in
    (
      record {
        ready = record {
          tables = record { aligned = m.ready.tables.aligned; child = m.ready.tables.child };
          apart = record {
            window = m.ready.apart.window;
            free = m.ready.apart.free;
            pages = m.ready.apart.pages;
          };
        };
        root_owned = rw root m.root_owned;
        held = held;
        whole = rw top is.whole;
        range = rw top is.range;
        blocks = rw list (
            Placed-kept m.after.mem start _ is.blocks is.placed (λ a l h. words a l (omega arith)));
        placed = rw top is.placed;
      },
      words,
    )

-- The state after the header of the new block at `blk` was written.
abbrev opened : ℕ → Machine → Machine
opened blk t = record t {
  mem = headed t.mem blk t.free_list;
  free_list = blk;
  heap_top = blk + 4096;
}

opened-IsHeap :
    {own : Owner} {ps : List ℕ} {start blk : ℕ} {bs : List (ℕ × ℕ)} {t : Machine}
    → t.heap_top ≡ blk
    → blk + 4096 < 2 ^ 64
    → IsHeap own ps start bs t
    → IsHeap own ps start ((blk, 4072) ∷ bs) (opened blk t)
opened-IsHeap {start} {blk} {bs} {t} at fits is =
    let g = headed t.mem blk t.free_list in
    let placed : Placed start blk bs = rw at at is.placed in
    let (pos, low, high) = is.range in
    let (_, whole) = is.whole in
    let size : g (blk + 8) ≡ 4072 = ground arith in
    let next : g (blk + 16) ≡ t.free_list = rw ==_refl refl in
    let chain : IsBlocks g blk ((blk, 4072) ∷ bs) =
      block (omega arith) (omega arith) size (ApartAll-above start blk bs placed)
        (rw next (Placed-kept g start blk is.blocks placed (λ a l h. ground arith))) in
    written-IsHeap is g blk (blk + 4096) (λ a h. ground arith) ((blk, 4072) ∷ bs) chain
      (omega arith, omega arith, Placed-higher start blk (blk + 4096) bs (omega arith) placed)
      (omega arith) (omega arith, omega arith)

-- Taking a frame changes no lookup.
taken_entry :
    (root w next : ℕ) (s : Machine)
    → entry_from 3 root w (record s { page_list = next }) ≡ entry_from 3 root w s
unfolding entry_from find
taken_entry root w next s = refl

header_above : (m : Memory) (blk a list : ℕ) → a < blk → headed m blk list a ≡ m a
header_above m blk a list h = ground arith

opened-lookups :
    {own : Owner} {ps : List ℕ} {start blk : ℕ} {bs : List (ℕ × ℕ)} {t : Machine} (root : ℕ)
    → t.kernel_pml4 ≡ root
    → t.heap_top ≡ blk
    → IsHeap own ps start bs t
    → (w : ℕ) → entry_from 3 root w (opened blk t) ≡ entry_from 3 root w t
opened-lookups {start} {blk} {bs} {t} root at_root at is w =
    let (pos, low, high) = is.range in
    ap (λ r. entry_from 3 r w (opened blk t)) (sym at_root)
    ∙ written-lookups is (headed t.mem blk t.free_list) blk (blk + 4096) (λ a h. ground arith) w
    ∙ ap (λ r. entry_from 3 r w t) at_root

-- One new page, and those after it.
expand_step :
    (n f next : ℕ) (s t : Machine)
    → frame_alloc s ≡ ok f (record s { page_list = next })
    → paging_map_page s.kernel_pml4 s.heap_top f 0x1000 3 (record s { page_list = next }) ≡ ok tt t
    → t.heap_top ≡ s.heap_top
    → s.heap_top + 4096 < 2 ^ 64
    → heap_expand (suc n) s ≡ heap_expand n (opened s.heap_top t)
unfolding heap_expand
expand_step n f next s t alloc run at fits =
    let up : u64 (s.heap_top + 0x1000) ≡ s.heap_top + 4096 = omega arith in
    rw (alloc, run, at, up) refl

-- What one round of heap_expand does.
pub record OnePage (own : Owner) (f : ℕ) (ps : List ℕ) (start : ℕ) (bs : List (ℕ × ℕ)) (s : Machine)
    : Type 0 where
  pub after : Machine
  pub owner : Owner
  pub spare : List ℕ
  pub runs : (n : ℕ) → heap_expand (suc n) s ≡ heap_expand n after
  pub is_heap : IsHeap owner spare start ((s.heap_top, 4072) ∷ bs) after
  pub used : length ps ≤ 3 + length spare
  pub within : Within spare ps
  pub fresh : has f ps ≡ false
  pub moved : after.heap_top ≡ s.heap_top + 4096
  pub root_same : after.kernel_pml4 ≡ s.kernel_pml4
  pub here : (w : ℕ) → page w ≡ page s.heap_top → entry_from 3 s.kernel_pml4 w after ≡ mapped f 3 0
  pub elsewhere :
      (w : ℕ)
      → page w ≢ page s.heap_top
      → entry_from 3 s.kernel_pml4 w after ≡ entry_from 3 s.kernel_pml4 w s
  pub same : (a : ℕ) → start ≤ a → a < s.heap_top → after.mem a ≡ s.mem a

pub one_page :
    (own : Owner) (f : ℕ) (ps : List ℕ) (start : ℕ) (bs : List (ℕ × ℕ)) (s : Machine)
    → IsHeap own (f ∷ ps) start bs s
    → 3 ≤ length ps
    → s.heap_top + 4096 < 2 ^ 64
    → OnePage own f ps start bs s
one_page own f ps start bs s is enough fits =
    let (next, alloc, free, nz, lt, out) = frame_alloc-Allocated s (f ∷ ps) is.ready.apart.free in
    let (pf, lf, un) = is.ready.apart.pages f (rw ==_refl refl) in
    let (_, whole) = is.whole in
    let is₁ = taken-IsHeap free is in
    let (t, m, run) =
      paging_map_page-Maps own (record s { page_list = next }) ps s.kernel_pml4 1 s.heap_top f 3
        is₁.ready is.root_owned (omega arith) whole pf (omega arith) (omega arith) (omega arith) in
    let same_state : t ≡ m.after = cc (m.runs) in
    let t' : Machine = record m.after { flushed = flushes 1 s.heap_top m.after.flushed } in
    let (is₂, words) = mapped-IsHeap (flushes 1 s.heap_top m.after.flushed) m is₁ in
    let at : m.after.heap_top ≡ s.heap_top = ap (λ (x : Machine). x.heap_top) m.confined.rest in
    let root : m.after.kernel_pml4 ≡ s.kernel_pml4 =
      ap (λ (x : Machine). x.kernel_pml4) m.confined.rest in
    let lookups = opened-lookups s.kernel_pml4 root at is₂ in
    let same =
      λ (w : ℕ). same_entry s.kernel_pml4 w m.after (flushes 1 s.heap_top m.after.flushed) in
    record {
      after = opened s.heap_top t';
      owner = m.owner;
      spare = m.spare;
      runs = λ n. expand_step n f next s t' alloc (rw same_state at run) at fits;
      is_heap = opened-IsHeap at fits is₂;
      used = omega (arith, m.used);
      within = m.within;
      fresh = out;
      moved = refl;
      root_same = root;
      here = λ w e. lookups w ∙ same w ∙ m.here 0 w (omega arith) (e ∙ ap page (omega arith));
      elsewhere = λ w ne.
          lookups w
          ∙ same w
          ∙ m.elsewhere w (λ (i, h, e). ne (e ∙ ap page (omega arith)))
          ∙ taken_entry s.kernel_pml4 w next s;
      same = λ a l h.
          let (pos, low, high) = is.range in
          header_above m.after.mem s.heap_top a m.after.free_list h ∙ words a l (omega arith);
    }
