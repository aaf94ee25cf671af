-- ===== src/Memory/Heap/Large.antt =====
-- kmalloc of more than a page holds: heap_expand adds single pages, which are not joined, so no block ever fits.
use dos_kernel.Common.{
  ℕ, zero, suc, ◌+◌, ◌*◌, ◌^◌, ◌≤◌, ◌<◌, ◌≡◌, refl, ap, ◌∙◌, arith, List, ◌∷◌, length, none, false,
  leb, Run, ◌>>◌,
}
use dos_kernel.Memory.Machine.{Machine}
use dos_kernel.Memory.Paging.Tree.{Owner}
use dos_kernel.Memory.Heap.{kmalloc, align16, heap_expand}
use dos_kernel.Memory.Heap.Blocks.{first_fit}
use dos_kernel.Memory.Heap.Space.{IsHeap}
use dos_kernel.Memory.Heap.Expand.{Expanded, heap_expand-Expanded, grown}
use dos_kernel.Memory.Heap.Calls.{pages_for, kmalloc_again}

first_fit-grown :
    (want n top : ℕ) (bs : List (ℕ × ℕ))
    → 4072 < want
    → first_fit want bs ≡ none
    → first_fit want (grown n top bs) ≡ none
unfolding first_fit
first_fit-grown want zero top bs large missing = missing
first_fit-grown want (suc n) top bs large missing =
    let no : leb want 4072 ≡ false = ground arith in
    first_fit-grown want n (top + 4096) ((top, 4072) ∷ bs) large (rw (no, missing) refl)

length-grown : (n top : ℕ) (bs : List (ℕ × ℕ)) → length (grown n top bs) ≡ n + length bs
length-grown zero top bs = omega arith
length-grown (suc n) top bs = omega (arith, length-grown n (top + 4096) ((top, 4072) ∷ bs))

-- A call of kmalloc that comes back to itself in a heap with `n` more pages, where still nothing fits.
pub record Starves (own : Owner) (ps : List ℕ) (start want fuel n : ℕ) (bs : List (ℕ × ℕ))
    (s : Machine) (r : Run Machine ℕ) : Type 0 where
  pub after : Machine
  pub owner : Owner
  pub spare : List ℕ
  pub blocks : List (ℕ × ℕ)
  pub runs : r ≡ kmalloc fuel want after
  pub is_heap : IsHeap owner spare start blocks after
  pub missing : first_fit want blocks ≡ none
  pub grew : (after.heap_top ≡ s.heap_top + n * 4096) × (length blocks ≡ n + length bs)
  pub used : length ps ≤ 4 * n + length spare

-- One expansion, and the call that follows.
round :
    {own : Owner} {ps : List ℕ} {start size : ℕ} {bs : List (ℕ × ℕ)} {s : Machine} (fuel : ℕ)
    (e : Expanded own ps start (pages_for size) bs s (heap_expand (pages_for size) s))
    → align16 size ≡ size
    → (heap_expand (pages_for (align16 size)) >> kmalloc fuel (align16 size)) s
      ≡ kmalloc fuel size e.after
round {size} {s} fuel e whole =
    ap (λ x. (heap_expand (pages_for x) >> kmalloc fuel x) s) whole ∙ rw e.runs refl

-- For every number of rounds `n`, kmalloc of a multiple of 16 above 4072 bytes, on a heap in order without such a
-- block, comes back to itself after `n` expansions, with frames and room enough for them: it never returns a
-- block, and takes pages without end.
pub kmalloc-Starves :
    (n fuel size : ℕ) (own : Owner) (ps : List ℕ) (start : ℕ) (bs : List (ℕ × ℕ)) (s : Machine)
    → IsHeap own ps start bs s
    → 4072 < size
    → size < 2 ^ 47
    → align16 size ≡ size
    → first_fit size bs ≡ none
    → 4 * (n * pages_for size) ≤ length ps
    → s.heap_top + n * pages_for size * 4096 < 2 ^ 64
    → length bs + n * pages_for size ≤ fuel
    → Starves own ps start size fuel (n * pages_for size) bs s (kmalloc (n + fuel) size s)
kmalloc-Starves zero fuel size own ps start bs s is large small whole missing frames room enough =
    record {
      after = s;
      owner = own;
      spare = ps;
      blocks = bs;
      runs = ap (λ x. kmalloc x size s) (omega arith);
      is_heap = is;
      missing = missing;
      grew = (omega arith, omega arith);
      used = omega arith;
    }
kmalloc-Starves (suc n) fuel size own ps start bs s is large small whole missing frames room
      enough =
    let p = pages_for size in
    let e = heap_expand-Expanded p own ps start bs s is (omega arith) (omega arith) (omega arith) in
    let runs =
      kmalloc_again (n + fuel) size bs s (omega arith) (omega arith) is.blocks (omega arith)
        (ap (λ x. first_fit x bs) whole ∙ missing) in
    let more =
      kmalloc-Starves n fuel size e.owner e.spare start (grown p s.heap_top bs) e.after e.is_heap
        large small whole (first_fit-grown size p s.heap_top bs large missing)
        (omega (arith, e.used)) (omega (arith, e.moved))
        (omega (arith, length-grown p s.heap_top bs)) in
    record {
      after = more.after;
      owner = more.owner;
      spare = more.spare;
      blocks = more.blocks;
      runs = ap (λ x. kmalloc x size s) (omega arith) ∙ runs ∙ round (n + fuel) e whole ∙ more.runs;
      is_heap = more.is_heap;
      missing = more.missing;
      grew = (
        omega (arith, e.moved, more.grew.0),
        omega (arith, more.grew.1, length-grown p s.heap_top bs),
      );
      used = omega (arith, e.used, more.used);
    }
