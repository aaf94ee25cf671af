-- ===== src/Memory/Heap/Alloc.antt =====
-- kmalloc and kfree against first fit on the list of free blocks.
use dos_kernel.Common.{
  ℕ, suc, ◌+◌, ◌^◌, ◌≤◌, ◌<◌, ◌≡◌, ◌≢◌, inl, refl, arith, List, ◌∷◌, length, some, false, ◌==◌,
  ==_refl, ok, Run, sub64,
}
use dos_kernel.Memory.Machine.{Machine, Memory, write}
use dos_kernel.Memory.Heap.{search, kmalloc, kfree, align16}
use dos_kernel.Memory.Heap.Blocks.{
  ApartAll, IsBlocks, HasBlocks, block, Outside, headers_kept, first_fit,
}
use dos_kernel.Memory.Heap.Fit.{Suits, first_fit-Suits}
use dos_kernel.Memory.Heap.Search.{Took, search-Searched}

-- A run of kmalloc that hands out the block `q` of `k` bytes and leaves `rest` free: the bytes of the block are
-- enough and in no other free block, and nothing outside of the free blocks `bs` is written.
pub record Handed (want : ℕ) (bs : List (ℕ × ℕ)) (s : Machine) (q k : ℕ) (rest : List (ℕ × ℕ))
    (r : Run Machine ℕ) : Type 0 where
  pub mem : Memory
  pub list : ℕ
  pub runs : r ≡ ok (q + 24) (record s { mem = mem; free_list = list })
  pub free : IsBlocks mem list rest
  pub suits : Suits want (q, k, rest)
  pub sized : mem (q + 8) ≡ k
  pub same : (a : ℕ) → Outside a bs → mem a ≡ s.mem a

-- kmalloc of a size that is not 0, when a free block has the size rounded up to 16, hands out the first such
-- block, cut in two when another block fits behind it, and leaves the other blocks free and in order; the
-- fuel is enough with one unit for each block.
pub kmalloc-Handed :
    (fuel size : ℕ) (bs : List (ℕ × ℕ)) (s : Machine) (q k : ℕ) (rest : List (ℕ × ℕ))
    → size ≢ 0
    → align16 size ≢ 0
    → align16 size + 40 < 2 ^ 64
    → HasBlocks s bs
    → length bs ≤ fuel
    → first_fit (align16 size) bs ≡ some (q, k, rest)
    → Handed (align16 size) bs s q k rest (kmalloc (suc fuel) size s)
unfolding kmalloc
kmalloc-Handed fuel size bs s q k rest ne some_bytes small chain enough found =
    let z : (size == 0) ≡ false = ground arith in
    let took : Took 0 bs s q k rest (search (suc fuel) 0 s.free_list (align16 size) s) =
      rw found at (
        search-Searched (suc fuel) 0 0 s.free_list (align16 size) bs s some_bytes small chain refl
          (inl refl) (omega arith)) in
    let suits : Suits (align16 size) (q, k, rest) =
      rw found at (first_fit-Suits (align16 size) bs chain) in
    let got : (q + 24 == 0) ≡ false = ground arith in
    record {
      mem = took.mem;
      list = took.list;
      runs = rw (z, took.runs, got) refl;
      free = took.chain;
      suits = suits;
      sized = took.sized;
      same = λ a out. took.same a out (λ h. absurd (h refl));
    }

-- kfree of a block apart from the free ones puts it in front of them and writes only its link.
pub kfree-IsBlocks :
    (p n : ℕ) (bs : List (ℕ × ℕ)) (s : Machine)
    → HasBlocks s bs
    → p ≢ 0
    → p + 24 + n < 2 ^ 64
    → s.mem (p + 8) ≡ n
    → ApartAll p n bs
    → (mem : Memory) × (kfree (p + 24) s ≡ ok tt (record s { mem = mem; free_list = p }))
      × IsBlocks mem p ((p, n) ∷ bs)
      × ((a : ℕ) → a ≢ p + 16 → mem a ≡ s.mem a)
unfolding kfree
kfree-IsBlocks p n bs s chain ne fits size apart =
    let back : sub64 (p + 24) 24 ≡ p = omega arith in
    let some_ptr : (p + 24 == 0) ≡ false = ground arith in
    let g = write s.mem (p + 16) s.free_list in
    let size_kept : (p + 8 == p + 16) ≡ false = ground arith in
    (
      g,
      rw (some_ptr, back) refl,
      block ne fits (rw size_kept size) apart
          (rw ==_refl (headers_kept g p n p n chain apart apart (λ a h l. ground arith))),
      λ a h. ground arith,
    )
