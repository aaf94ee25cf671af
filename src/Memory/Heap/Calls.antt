-- ===== src/Memory/Heap/Calls.antt =====
-- kmalloc and kfree on a heap in order.
use dos_kernel.Common.{
  ℕ, suc, ◌+◌, ◌/◌, ◌^◌, ◌≤◌, ◌<◌, ◌≡◌, ◌≢◌, inl, inr, refl, sym, ap, ◌∙◌, arith, List, [], ◌∷◌,
  length, Option-cases, none, some, true, false, leb, ◌==◌, ok, Run, Cmd, and_then, subst, ◌>>◌,
  u64,
}
use dos_kernel.Memory.Machine.{Machine}
use dos_kernel.Memory.Paging.{entry_from}
use dos_kernel.Memory.Paging.Tree.{Owner}
use dos_kernel.Memory.Paging.Range.{Covers}
use dos_kernel.Memory.Heap.{search, kmalloc, kfree, align16, heap_expand}
use dos_kernel.Memory.Heap.Align.{align16_lem, align16-align16}
use dos_kernel.Memory.Heap.Blocks.{
  ApartAll, HasBlocks, Outside, Fit, first_fit, taken_size, remainder,
}
use dos_kernel.Memory.Heap.Fit.{Suits}
use dos_kernel.Memory.Heap.Search.{search-Searched}
use dos_kernel.Memory.Heap.Alloc.{kmalloc-Handed, kfree-IsBlocks}
use dos_kernel.Memory.Heap.Space.{IsHeap, Placed, first_fit-Placed, written-IsHeap, written-lookups}
use dos_kernel.Memory.Heap.Expand.{Expanded, heap_expand-Expanded}

-- The block that kmalloc hands out: the first that fits, or else one in a new page at the top.
abbrev pub allocate : ℕ → ℕ → List (ℕ × ℕ) → Fit
allocate want top bs = elim (first_fit want bs) [
  | none ↦ (top, taken_size want 4072, remainder want top 4072 bs)
  | some f ↦ f
]

-- A run that hands out the block `f` names, leaves the others free, and keeps the heap in order, every mapping
-- outside of the `n` new pages at the old top, and every word of the heap outside of the free blocks.
pub record Allocates (own : Owner) (start want n : ℕ) (bs : List (ℕ × ℕ)) (s : Machine) (f : Fit)
    (r : Run Machine ℕ) : Type 0 where
  pub after : Machine
  pub owner : Owner
  pub spare : List ℕ
  pub runs : r ≡ ok (f.0 + 24) after
  pub is_heap : IsHeap owner spare start f.2 after
  pub suits : Suits want f
  pub placed : (start ≤ f.0) × (f.0 + 24 + f.1 ≤ after.heap_top)
  pub sized : after.mem (f.0 + 8) ≡ f.1
  pub higher : s.heap_top ≤ after.heap_top
  pub elsewhere :
      (w : ℕ)
      → ¬ Covers s.heap_top n w
      → entry_from 3 s.kernel_pml4 w after ≡ entry_from 3 s.kernel_pml4 w s
  pub same : (a : ℕ) → start ≤ a → a < s.heap_top → Outside a bs → after.mem a ≡ s.mem a

-- What lies below the heap is outside of its blocks.
Placed-Outside :
    (start top a : ℕ) (bs : List (ℕ × ℕ)) → a < start → Placed start top bs → Outside a bs
Placed-Outside start top a [] h placed = tt
Placed-Outside start top a ((p, n) ∷ bs) h (low, fits, more) =
    (omega arith, Placed-Outside start top a bs h more)

-- A block that fits is handed out without a new page.
fits_Allocates :
    (own : Owner) (ps : List ℕ) (start fuel size : ℕ) (bs : List (ℕ × ℕ)) (s : Machine) (q k : ℕ)
    (rest : List (ℕ × ℕ))
    → IsHeap own ps start bs s
    → size ≢ 0
    → size + 60 < 2 ^ 64
    → length bs ≤ fuel
    → first_fit (align16 size) bs ≡ some (q, k, rest)
    → Allocates own start (align16 size) 0 bs s (q, k, rest) (kmalloc (suc fuel) size s)
fits_Allocates own ps start fuel size bs s q k rest is ne small enough found =
    let up = align16_lem size (omega arith) in
    let h =
      kmalloc-Handed fuel size bs s q k rest ne (omega arith) (omega arith) is.blocks enough
        found in
    let (low, high, more) : Placed start s.heap_top ((q, k) ∷ rest) =
      rw found at (first_fit-Placed (align16 size) start s.heap_top bs is.placed) in
    let below : (a : ℕ) → a < start → h.mem a ≡ s.mem a =
      λ a l. h.same a (Placed-Outside start s.heap_top a bs l is.placed) in
    let (pos, under, fits) = is.range in
    record {
      after = record s { mem = h.mem; free_list = h.list };
      owner = own;
      spare = ps;
      runs = h.runs;
      is_heap =
          written-IsHeap is h.mem h.list s.heap_top below rest h.free more is.whole.1 (under, fits);
      suits = h.suits;
      placed = (low, high);
      sized = h.sized;
      higher = omega arith;
      elsewhere = λ w ne. written-lookups is h.mem h.list s.heap_top below w;
      same = λ a l g out. h.same a out;
    }

-- The pages that kmalloc asks for.
abbrev pub pages_for : ℕ → ℕ
pages_for want = (want + 24 + 4095) / 4096

-- When no block fits, kmalloc expands the heap and calls itself.
pub kmalloc_again :
    (fuel size : ℕ) (bs : List (ℕ × ℕ)) (s : Machine)
    → size ≢ 0
    → size + 5000 < 2 ^ 64
    → HasBlocks s bs
    → length bs ≤ fuel
    → first_fit (align16 size) bs ≡ none
    → kmalloc (suc fuel) size s
      ≡ (heap_expand (pages_for (align16 size)) >> kmalloc fuel (align16 size)) s
unfolding kmalloc
kmalloc_again fuel size bs s ne small chain enough missing =
    let up = align16_lem size (omega arith) in
    let z : (size == 0) ≡ false = ground arith in
    let searched : search (suc fuel) 0 s.free_list (align16 size) s ≡ ok 0 s = rw missing at (
      search-Searched (suc fuel) 0 0 s.free_list (align16 size) bs s (omega arith) (omega arith)
        chain refl (inl refl) (omega arith)) in
    let plain : u64 (align16 size + 24 + 0xFFF) ≡ align16 size + 24 + 4095 = omega arith in
    rw (z, searched, plain) refl

-- Where the new block goes: first fit takes it, since it stands first.
first_fit_new :
    (want top : ℕ) (bs : List (ℕ × ℕ))
    → want ≤ 4072
    → first_fit want ((top, 4072) ∷ bs)
      ≡ some (top, taken_size want 4072, remainder want top 4072 bs)
unfolding first_fit
first_fit_new want top bs h = let fit : leb want 4072 ≡ true = ground arith in rw fit refl

-- A new page, and a block in it.
then_Allocates :
    {own : Owner} {ps : List ℕ} {start want : ℕ} {bs : List (ℕ × ℕ)} {s : Machine} {f : Fit}
    {r : Run Machine (Unit {0})} (k : Cmd Machine ℕ) (e : Expanded own ps start 1 bs s r)
    → start ≤ s.heap_top
    → s.heap_top + 4096 < 2 ^ 64
    → Allocates e.owner start want 0 ((s.heap_top, 4072) ∷ bs) e.after f (k e.after)
    → Allocates own start want 1 bs s f (and_then r (λ _. k))
then_Allocates {bs} {s} k e above room a = record {
  after = a.after;
  owner = a.owner;
  spare = a.spare;
  runs = rw e.runs a.runs;
  is_heap = a.is_heap;
  suits = a.suits;
  placed = a.placed;
  sized = a.sized;
  higher = omega (arith, a.higher, e.moved);
  elsewhere = λ w out.
      ap (λ r. entry_from 3 r w a.after) (sym e.root_same)
      ∙ a.elsewhere w (λ (i, h, eq). absurd (omega arith))
      ∙ ap (λ r. entry_from 3 r w e.after) e.root_same
      ∙ e.elsewhere w out;
  same =
      λ x low high out. a.same x low (omega (arith, e.moved)) (inl high, out) ∙ e.same x low high;
}

grown_Allocates :
    (own : Owner) (ps : List ℕ) (start fuel size : ℕ) (bs : List (ℕ × ℕ)) (s : Machine)
    → IsHeap own ps start bs s
    → size ≢ 0
    → size ≤ 4064
    → 4 ≤ length ps
    → s.heap_top + 4096 < 2 ^ 64
    → length bs < fuel
    → first_fit (align16 size) bs ≡ none
    → let want = align16 size in
      Allocates own start want 1 bs s
        (s.heap_top, taken_size want 4072, remainder want s.heap_top 4072 bs)
        (kmalloc (suc (suc fuel)) size s)
grown_Allocates own ps start fuel size bs s is ne small frames room enough missing =
    let up = align16_lem size (omega arith) in
    let again = align16-align16 size (omega arith) in
    let one : pages_for (align16 size) ≡ 1 = omega arith in
    let e : Expanded own ps start 1 bs s (heap_expand (pages_for (align16 size)) s) =
      rw one
        (heap_expand-Expanded 1 own ps start bs s is (omega arith) (omega arith) (omega arith)) in
    let (q, k, rest) : Fit =
      (s.heap_top, taken_size (align16 size) 4072, remainder (align16 size) s.heap_top 4072 bs) in
    let new = first_fit_new (align16 size) s.heap_top bs (omega arith) in
    let a =
      fits_Allocates e.owner e.spare start fuel (align16 size) ((s.heap_top, 4072) ∷ bs) e.after q k
        rest e.is_heap (omega arith) (omega arith) (omega arith)
        (ap (λ x. first_fit x ((s.heap_top, 4072) ∷ bs)) again ∙ new) in
    let runs =
      kmalloc_again (suc fuel) size bs s ne (omega arith) is.blocks (omega arith) missing in
    let (pos, under, high) = is.range in
    subst (Allocates own start (align16 size) 1 bs s (q, k, rest)) (sym runs) (
      then_Allocates (kmalloc (suc fuel) (align16 size)) e under room (
        subst
          (λ x.
            Allocates e.owner start x 0 ((s.heap_top, 4072) ∷ bs) e.after (q, k, rest)
              (kmalloc (suc fuel) (align16 size) e.after))
          again a))

-- Whether kmalloc takes a new page.
abbrev pub new_pages : ℕ → List (ℕ × ℕ) → ℕ
new_pages want bs = elim (first_fit want bs) [ none ↦ 1 | some f ↦ 0 ]

-- kmalloc of 1 to 4064 bytes on a heap in order, with four free frames and room for a page, returns: it hands out
-- the first block that fits, or one in a new page, and keeps the heap in order. Fuel for each block and three
-- more is enough.
pub kmalloc-Allocates :
    (own : Owner) (ps : List ℕ) (start fuel size : ℕ) (bs : List (ℕ × ℕ)) (s : Machine)
    → IsHeap own ps start bs s
    → size ≢ 0
    → size ≤ 4064
    → 4 ≤ length ps
    → s.heap_top + 4096 < 2 ^ 64
    → length bs < fuel
    → let want = align16 size in
      Allocates own start want
        (new_pages want bs)
        bs
        s
        (allocate want s.heap_top bs)
        (kmalloc (suc (suc fuel)) size s)
kmalloc-Allocates own ps start fuel size bs s is ne small frames room enough =
    elim (Option-cases (first_fit (align16 size) bs)) [
      | inl missing ↦
          rw (allocate, new_pages, missing)
            (grown_Allocates own ps start fuel size bs s is ne small frames room enough missing)
      | inr ((q, k, rest), found) ↦
          rw (allocate, new_pages, found)
            (fits_Allocates own ps start (suc fuel) size bs s q k rest is ne (omega arith)
              (omega arith) found)
    ]

-- kfree of a block of the heap that is apart from the free ones puts it in front of them and keeps the heap in
-- order and every mapping.
pub kfree-IsHeap :
    (own : Owner) (ps : List ℕ) (start p n : ℕ) (bs : List (ℕ × ℕ)) (s : Machine)
    → IsHeap own ps start bs s
    → start ≤ p
    → p + 24 + n ≤ s.heap_top
    → p + 24 + n < 2 ^ 64
    → s.mem (p + 8) ≡ n
    → ApartAll p n bs
    → (t : Machine) × (kfree (p + 24) s ≡ ok tt t)
      × IsHeap own ps start ((p, n) ∷ bs) t
      × ((w : ℕ) → entry_from 3 s.kernel_pml4 w t ≡ entry_from 3 s.kernel_pml4 w s)
      × ((a : ℕ) → a ≢ p + 16 → t.mem a ≡ s.mem a)
kfree-IsHeap own ps start p n bs s is low high range size apart =
    let (pos, under, fits) = is.range in
    let (mem, runs, chain, same) =
      kfree-IsBlocks p n bs s is.blocks (omega arith) range size apart in
    let below : (a : ℕ) → a < start → mem a ≡ s.mem a = λ a h. same a (omega arith) in
    (
      record s { mem = mem; free_list = p },
      runs,
      written-IsHeap is mem p s.heap_top below ((p, n) ∷ bs) chain (low, high, is.placed) is.whole.1
          (under, fits),
      written-lookups is mem p s.heap_top below,
      same,
    )
