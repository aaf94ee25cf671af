-- ===== src/Memory/Heap/Cycle.antt =====
-- kmalloc and then kfree: no byte of the heap is lost.
use dos_kernel.Common.{
  ℕ, suc, ◌+◌, ◌*◌, ◌^◌, ◌≤◌, ◌<◌, ◌≡◌, ◌≢◌, inl, inr, refl, ◌∙◌, arith, List, [], ◌∷◌, length,
  Option-cases, Bool-cases, leb, ok, Run, and_then, ◌>>=◌,
}
use dos_kernel.Memory.Machine.{Machine}
use dos_kernel.Memory.Paging.Tree.{Owner}
use dos_kernel.Memory.Heap.{kmalloc, kfree, align16}
use dos_kernel.Memory.Heap.Align.{align16_lem}
use dos_kernel.Memory.Heap.Blocks.{first_fit, is_whole, taken_size, remainder}
use dos_kernel.Memory.Heap.Fit.{Whenever, Whenever-keep}
use dos_kernel.Memory.Heap.Space.{IsHeap}
use dos_kernel.Memory.Heap.Calls.{allocate, new_pages, kmalloc-Allocates, kfree-IsHeap}

-- The bytes of blocks, with their headers.
abbrev pub total : List (ℕ × ℕ) → ℕ
total [] = 0
total ((p, n) ∷ bs) = n + 24 + total bs

total-remainder :
    (want p n : ℕ) (bs : List (ℕ × ℕ))
    → want ≤ n
    → taken_size want n + 24 + total (remainder want p n bs) ≡ n + 24 + total bs
total-remainder want p n bs fit = elim (Bool-cases (is_whole want n)) [
  | inl e ↦ rw e refl
  | inr e ↦ let big : want + 40 ≤ n = ground arith in rw e (omega arith)
]

total-first_fit :
    (want : ℕ) (bs : List (ℕ × ℕ))
    → Whenever (λ (q, k, rest). k + 24 + total rest ≡ total bs) (first_fit want bs)
unfolding first_fit
total-first_fit want [] = tt
total-first_fit want ((p, n) ∷ bs) = elim (Bool-cases (leb want n)) [
  | inl e ↦ rw e (total-remainder want p n bs (ground arith))
  | inr e ↦ rw e (
      Whenever-keep (λ (q, k, rest). k + 24 + total rest ≡ total bs)
        (λ (q, k, rest). k + 24 + total rest ≡ n + 24 + total bs) (p, n) (λ q k rest h. omega arith)
        (first_fit want bs) (total-first_fit want bs))
]

total-allocate :
    (want top : ℕ) (bs : List (ℕ × ℕ))
    → want ≤ 4072
    → let f = allocate want top bs in f.1 + 24 + total f.2 ≡ total bs + 4096 * new_pages want bs
total-allocate want top bs small = elim (Option-cases (first_fit want bs)) [
  | inl missing ↦
      rw (allocate, new_pages, missing) (total-remainder want top 4072 bs small ∙ omega arith)
  | inr ((q, k, rest), found) ↦
      let same : k + 24 + total rest ≡ total bs = rw found at (total-first_fit want bs) in
      rw (allocate, new_pages, found) (omega arith)
]

-- A heap in order behind a call, with free blocks of `bytes` bytes together.
pub record Cycled (start bytes : ℕ) (t : Machine) : Type 0 where
  pub owner : Owner
  pub spare : List ℕ
  pub blocks : List (ℕ × ℕ)
  pub is_heap : IsHeap owner spare start blocks t
  pub sum : total blocks ≡ bytes

-- kmalloc of 1 to 4064 bytes and kfree of what it returned give a heap in order whose free blocks have the bytes that
-- they had before, headers included, and 4096 more when a page was added; the hypotheses are those of kmalloc.
pub kmalloc-kfree :
    (own : Owner) (ps : List ℕ) (start fuel size : ℕ) (bs : List (ℕ × ℕ)) (s : Machine)
    → IsHeap own ps start bs s
    → size ≢ 0
    → size ≤ 4064
    → 4 ≤ length ps
    → s.heap_top + 4096 < 2 ^ 64
    → length bs < fuel
    → (t : Machine) × ((kmalloc (suc (suc fuel)) size >>= kfree) s ≡ ok tt t)
      × Cycled start (total bs + 4096 * new_pages (align16 size) bs) t
kmalloc-kfree own ps start fuel size bs s is ne small frames room enough =
    let up = align16_lem size (omega arith) in
    let a = kmalloc-Allocates own ps start fuel size bs s is ne small frames room enough in
    let (low, high) = a.placed in
    let (t, runs, heap, lookups, same) =
      kfree-IsHeap a.owner a.spare start _ _ _ a.after a.is_heap low high a.suits.in_range a.sized
        a.suits.apart in
    (
      t,
      freed a.runs runs,
      record {
        owner = a.owner;
        spare = a.spare;
        blocks = _;
        is_heap = heap;
        sum = total-allocate (align16 size) s.heap_top bs (omega arith);
      },
    )
  where
    freed :
        {r : Run Machine ℕ} {p : ℕ} {m t : Machine}
        → r ≡ ok p m
        → kfree p m ≡ ok tt t
        → and_then r kfree ≡ ok tt t
    freed e f = rw (e, f) refl
