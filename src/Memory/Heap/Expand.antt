-- ===== src/Memory/Heap/Expand.antt =====
-- heap_expand: a frame and a mapping for each new page of the heap, and a free block in it.
use dos_kernel.Common.{
  ℕ, zero, suc, ◌+◌, ◌-◌, ◌*◌, ◌^◌, ◌≤◌, ◌<◌, ◌≡◌, refl, sym, ap, ◌∙◌, arith, List, [], ◌∷◌, length,
  ok, Run,
}
use dos_kernel.Memory.Machine.{Machine}
use dos_kernel.Memory.Frame.Taken.{Takes, Takes-nil, Takes-cons, then_frames}
use dos_kernel.Memory.Paging.{entry_from}
use dos_kernel.Memory.Paging.Tree.{Owner}
use dos_kernel.Memory.Paging.Leaf.{page}
use dos_kernel.Memory.Paging.Range.{Covers, mapped, pages_apart}
use dos_kernel.Memory.Heap.{heap_expand}
use dos_kernel.Memory.Heap.Space.{IsHeap}
use dos_kernel.Memory.Heap.Page.{OnePage, one_page}

-- The blocks of `n` new pages from `top` on, in front of the old ones.
abbrev pub grown : ℕ → ℕ → List (ℕ × ℕ) → List (ℕ × ℕ)
grown zero top bs = bs
grown (suc n) top bs = grown n (top + 4096) ((top, 4072) ∷ bs)

-- A run that adds `n` pages to the heap: each is mapped to a frame of its own, taken from the free list; every other
-- page keeps its entry, and the words of the old heap are kept.
pub record Expanded (own : Owner) (ps : List ℕ) (start n : ℕ) (bs : List (ℕ × ℕ)) (s : Machine)
    (r : Run Machine (Unit {0})) : Type 0 where
  pub after : Machine
  pub owner : Owner
  pub spare : List ℕ
  pub frames : ℕ → ℕ
  pub runs : r ≡ ok tt after
  pub is_heap : IsHeap owner spare start (grown n s.heap_top bs) after
  pub used : length ps ≤ 4 * n + length spare
  pub taken : Takes n frames ps spare
  pub moved : after.heap_top ≡ s.heap_top + n * 4096
  pub root_same : after.kernel_pml4 ≡ s.kernel_pml4
  pub here :
      (i w : ℕ)
      → i < n
      → page w ≡ page (s.heap_top + i * 4096)
      → entry_from 3 s.kernel_pml4 w after ≡ mapped (frames i) 3 0
  pub elsewhere :
      (w : ℕ)
      → ¬ Covers s.heap_top n w
      → entry_from 3 s.kernel_pml4 w after ≡ entry_from 3 s.kernel_pml4 w s
  pub same : (a : ℕ) → start ≤ a → a < s.heap_top → after.mem a ≡ s.mem a

-- One page and then `n` more.
grown_by :
    {own : Owner} {f : ℕ} {ps : List ℕ} {start n : ℕ} {bs : List (ℕ × ℕ)} {s : Machine}
    (one : OnePage own f ps start bs s)
    → Expanded one.owner one.spare start n
        ((s.heap_top, 4072) ∷ bs)
        one.after
        (heap_expand n one.after)
    → n < 2 ^ 36 - 1
    → Expanded own (f ∷ ps) start (suc n) bs s (heap_expand (suc n) s)
grown_by {own} {f} {ps} {start} {n} {bs} {s} one more few = record {
  after = more.after;
  owner = more.owner;
  spare = more.spare;
  frames = then_frames f more.frames;
  runs = one.runs n ∙ more.runs;
  is_heap = rw one.moved at more.is_heap;
  used = omega (arith, one.used, more.used);
  taken = Takes-cons one.fresh one.within more.taken;
  moved = omega (arith, one.moved, more.moved);
  root_same = more.root_same ∙ one.root_same;
  here = at;
  elsewhere = λ w out.
      above w (λ (i, h, e). out (suc i, omega arith, e ∙ ap page (omega (arith, one.moved))))
      ∙ one.elsewhere w (λ e. out (0, omega arith, e ∙ ap page (omega arith)));
  same = λ a l h. more.same a l (omega (arith, one.moved)) ∙ one.same a l h;
}
  where
    root_of :
        (w : ℕ) (t : Machine)
        → entry_from 3 s.kernel_pml4 w t ≡ entry_from 3 one.after.kernel_pml4 w t
    root_of w t = ap (λ r. entry_from 3 r w t) (sym one.root_same)

    above :
        (w : ℕ)
        → ¬ Covers one.after.heap_top n w
        → entry_from 3 s.kernel_pml4 w more.after ≡ entry_from 3 s.kernel_pml4 w one.after
    above w out = root_of w more.after ∙ more.elsewhere w out ∙ sym (root_of w one.after)

    at :
        (i w : ℕ)
        → i < suc n
        → page w ≡ page (s.heap_top + i * 4096)
        → entry_from 3 s.kernel_pml4 w more.after ≡ mapped (then_frames f more.frames i) 3 0
    at zero w h e =
        let first : page w ≡ page s.heap_top = e ∙ ap page (omega arith) in
        above w (λ (j, hj, eq).
          pages_apart s.heap_top j (omega arith)
            (sym first ∙ eq ∙ ap page (omega (arith, one.moved))))
        ∙ one.here w first
    at (suc i) w h e =
        root_of w more.after ∙ more.here i w (omega arith) (e ∙ ap page (omega (arith, one.moved)))

-- heap_expand on a heap in order, with four free frames for each new page and room for it, puts a free block of
-- 4072 bytes for each page in front of the free list, the last page first, maps the pages to distinct frames of the free
-- list, which are no longer free afterwards, and keeps every other mapping and the words of the old heap.
pub heap_expand-Expanded :
    (n : ℕ) (own : Owner) (ps : List ℕ) (start : ℕ) (bs : List (ℕ × ℕ)) (s : Machine)
    → IsHeap own ps start bs s
    → 4 * n ≤ length ps
    → n < 2 ^ 36
    → s.heap_top + n * 4096 < 2 ^ 64
    → Expanded own ps start n bs s (heap_expand n s)
unfolding heap_expand
heap_expand-Expanded zero own ps start bs s is enough few fits = record {
  after = s;
  owner = own;
  spare = ps;
  frames = λ i. 0;
  runs = refl;
  is_heap = is;
  used = omega arith;
  taken = Takes-nil (λ i. 0) ps;
  moved = omega arith;
  root_same = refl;
  here = λ i w h. absurd (omega arith);
  elsewhere = λ w out. refl;
  same = λ a l h. refl;
}
heap_expand-Expanded (suc n) own [] start bs s is enough few fits = absurd (omega arith)
heap_expand-Expanded (suc n) own (f ∷ ps) start bs s is enough few fits =
    let one = one_page own f ps start bs s is (omega arith) (omega arith) in
    let up : one.after.heap_top ≡ s.heap_top + 4096 = one.moved in
    let more =
      heap_expand-Expanded n one.owner one.spare start ((s.heap_top, 4072) ∷ bs) one.after
        one.is_heap (omega (arith, one.used)) (omega arith) (omega arith) in
    grown_by one more (omega arith)
