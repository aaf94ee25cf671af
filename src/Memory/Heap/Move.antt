-- ===== src/Memory/Heap/Move.antt =====
-- krealloc when the block is too small: the bytes move to a new block and the old one is freed.
use dos_kernel.Common.{
  ℕ, suc, ◌+◌, ◌-◌, ◌^◌, ◌≤◌, ◌<◌, ◌≡◌, inl, inr, refl, sym, ◌∙◌, arith, List, ◌∷◌, length,
  Option-cases, false, leb, ltb, ◌==◌, ◌&&◌, if◌then◌else◌, ok, Run, subst, sub64, pure, ◌>>◌,
}
use dos_kernel.Memory.Machine.{Machine, Memory}
use dos_kernel.Memory.Paging.Tree.{Owner}
use dos_kernel.Memory.Heap.{kmalloc, kfree, krealloc, align16, copy}
use dos_kernel.Memory.Heap.Align.{align16_lem}
use dos_kernel.Memory.Heap.Blocks.{ApartAll, Fit, first_fit, headers_kept}
use dos_kernel.Memory.Heap.Fit.{ApartAll-remainder, first_fit-ApartAll}
use dos_kernel.Memory.Heap.Search.{ApartAll-Outside}
use dos_kernel.Memory.Heap.Space.{IsHeap, written-IsHeap}
use dos_kernel.Memory.Heap.Calls.{Allocates, allocate, kmalloc-Allocates, kfree-IsHeap}

-- What is apart from the free blocks and ends below the top is apart from the new block too.
allocate-ApartAll :
    (want top x y : ℕ) (bs : List (ℕ × ℕ))
    → want ≤ 4072
    → ApartAll x y bs
    → x + 24 + y ≤ top
    → let f = allocate want top bs in ApartAll x y ((f.0, f.1) ∷ f.2)
allocate-ApartAll want top x y bs small apart fits = elim (Option-cases (first_fit want bs)) [
  | inl missing ↦
      rw (allocate, missing) (inl fits, ApartAll-remainder want x y top 4072 bs (inl fits, apart))
  | inr (f, found) ↦ rw (allocate, found) (rw found at (first_fit-ApartAll want x y bs apart))
]

-- A run that moves the `old` bytes of the block at `p` to the block that `f` names and frees the block at `p`.
pub record Moves (own : Owner) (start p old : ℕ) (s : Machine) (f : Fit) (r : Run Machine ℕ)
    : Type 0 where
  pub after : Machine
  pub owner : Owner
  pub spare : List ℕ
  pub runs : r ≡ ok (f.0 + 24) after
  pub is_heap : IsHeap owner spare start ((p, old) ∷ f.2) after
  pub copied : (i : ℕ) → i < old → after.mem (f.0 + 24 + i) ≡ s.mem (p + 24 + i)
  pub sized : after.mem (f.0 + 8) ≡ f.1

-- The memory after the copy.
abbrev copied_words : Memory → ℕ → ℕ → ℕ → Memory
copied_words m to from n b = if leb to b && ltb b (to + n) then m (from + (b - to)) else m b

module _ {own : Owner} {start want n p old : ℕ} {bs : List (ℕ × ℕ)} {s : Machine} {f : Fit}
    {r : Run Machine ℕ} (a : Allocates own start want n bs s f r)
    (apart : ApartAll p old ((f.0, f.1) ∷ f.2)) (low : start ≤ p) (high : p + 24 + old ≤ s.heap_top)
    (size : s.mem (p + 8) ≡ old) (fits : old ≤ want) (range : s.heap_top < 2 ^ 64)
    (kept : (x : ℕ) → p ≤ x → x < p + 24 + old → a.after.mem x ≡ s.mem x) where
  abbrev moved : Machine
  moved = record a.after { mem = copied_words a.after.mem (f.0 + 24) (p + 24) old }

  moved-IsHeap : IsHeap a.owner a.spare start f.2 moved
  moved-IsHeap =
      let g = copied_words a.after.mem (f.0 + 24) (p + 24) old in
      let (from, to) = a.placed in
      let enough = a.suits.fits in
      let (pos, under, top) = a.is_heap.range in
      written-IsHeap a.is_heap g a.after.free_list a.after.heap_top (λ x h. ground arith) f.2
        (headers_kept g f.0 f.1 f.0 f.1 a.is_heap.blocks a.suits.apart a.suits.apart
          (λ x out out'. ground arith))
        a.is_heap.placed a.is_heap.whole.1 (under, top)

  move :
      Moves own start p old s f
        ((copy (f.0 + 24) (p + 24) old >> (kfree (p + 24) >> pure (f.0 + 24))) a.after)
  move =
      let g = copied_words a.after.mem (f.0 + 24) (p + 24) old in
      let (away, more) = apart in
      let above = a.higher in
      let (from, to) = a.placed in
      let enough = a.suits.fits in
      let still : g (p + 8) ≡ old =
        let other : g (p + 8) ≡ a.after.mem (p + 8) = ground arith in
        other ∙ kept (p + 8) (omega arith) (omega arith) ∙ size in
      let (t, runs, heap, lookups, same) =
        kfree-IsHeap a.owner a.spare start p old f.2 moved moved-IsHeap low (omega arith)
          (omega arith) still more in
      record {
        after = t;
        owner = a.owner;
        spare = a.spare;
        runs = rw runs refl;
        is_heap = heap;
        copied = λ i h.
            let at : p + 24 + (f.0 + 24 + i - (f.0 + 24)) ≡ p + 24 + i = omega arith in
            let here : g (f.0 + 24 + i) ≡ a.after.mem (p + 24 + i) = ground arith in
            same (f.0 + 24 + i) (omega arith)
            ∙ here
            ∙ kept (p + 24 + i) (omega arith) (omega arith);
        sized =
            let other : g (f.0 + 8) ≡ a.after.mem (f.0 + 8) = ground arith in
            same (f.0 + 8) (omega arith) ∙ other ∙ a.sized;
      }

-- krealloc up to the copy.
realloc_step :
    (fuel p old size q : ℕ) (s t : Machine)
    → p + 24 < 2 ^ 64
    → s.mem (p + 8) ≡ old
    → t.mem (p + 8) ≡ old
    → old < size
    → kmalloc fuel size s ≡ ok (q + 24) t
    → krealloc fuel (p + 24) size s
      ≡ (copy (q + 24) (p + 24) old >> (kfree (p + 24) >> pure (q + 24))) t
unfolding krealloc
realloc_step fuel p old size q s t range before after large run =
    let some_ptr : (p + 24 == 0) ≡ false = ground arith in
    let some_size : (size == 0) ≡ false = ground arith in
    let back : sub64 (p + 24) 24 ≡ p = omega arith in
    let short : leb size old ≡ false = ground arith in
    let got : (q + 24 == 0) ≡ false = ground arith in
    rw (some_ptr, some_size, back, before, short, run, got, after) refl

-- krealloc of a block of the heap to a larger size of at most 4064 bytes, with four free frames and room for a
-- page, returns the block that kmalloc hands out, with the bytes of the old block, which is free afterwards.
pub krealloc-Moves :
    (own : Owner) (ps : List ℕ) (start fuel p old size : ℕ) (bs : List (ℕ × ℕ)) (s : Machine)
    → IsHeap own ps start bs s
    → start ≤ p
    → p + 24 + old ≤ s.heap_top
    → s.mem (p + 8) ≡ old
    → ApartAll p old bs
    → old < size
    → size ≤ 4064
    → 4 ≤ length ps
    → s.heap_top + 4096 < 2 ^ 64
    → length bs < fuel
    → Moves own start p old s
        (allocate (align16 size) s.heap_top bs)
        (krealloc (suc (suc fuel)) (p + 24) size s)
krealloc-Moves own ps start fuel p old size bs s is low high sized apart large small frames room
      enough =
    let up = align16_lem size (omega arith) in
    let a =
      kmalloc-Allocates own ps start fuel size bs s is (omega arith) small frames room enough in
    let f = allocate (align16 size) s.heap_top bs in
    let kept : (x : ℕ) → p ≤ x → x < p + 24 + old → a.after.mem x ≡ s.mem x =
      λ x l h. a.same x (omega arith) (omega arith) (ApartAll-Outside p old x bs l h apart) in
    let here = kept (p + 8) (omega arith) (omega arith) ∙ sized in
    let whole = allocate-ApartAll (align16 size) s.heap_top p old bs (omega arith) apart high in
    subst (Moves own start p old s f)
      (sym (
        realloc_step (suc (suc fuel)) p old size f.0 s a.after (omega arith) sized here large
          a.runs))
      (move a whole low high sized (omega arith) (omega arith) kept)
