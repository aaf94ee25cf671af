-- ===== src/Memory/Heap/Split.antt =====
-- The split of a block in kmalloc.
use dos_kernel.Common.{
  ℕ, ◌+◌, ◌-◌, ◌^◌, ◌≤◌, ◌<◌, ◌≡◌, ◌≢◌, inl, inr, refl, arith, List, Bool-cases, true, false, ltb,
  ==_refl, ok, Run, u64, sub64,
}
use dos_kernel.Memory.Machine.{Machine, Memory, write}
use dos_kernel.Memory.Heap.{split, heap_magic}
use dos_kernel.Memory.Heap.Blocks.{
  ApartAll, ApartAll-within, IsBlocks, block, Beyond, headers_kept, is_whole, taken_size, remainder,
}

-- The block at `c` after the split: its size and the blocks behind it.
pub record Cut (want c n : ℕ) (bs : List (ℕ × ℕ)) (s : Machine) (r : Run Machine (Unit {0}))
    : Type 0 where
  pub mem : Memory
  pub runs : r ≡ ok tt (record s { mem = mem })
  pub sized : mem (c + 8) ≡ taken_size want n
  pub chain : IsBlocks mem (mem (c + 16)) (remainder want c n bs)
  pub same : (a : ℕ) → Beyond a c n → mem a ≡ s.mem a

-- The words that the split writes.
abbrev cut_words : ℕ → ℕ → ℕ → Memory → Memory
cut_words want c n m =
    let at = c + 24 + want in
    let m₁ = write (write m at heap_magic) (at + 8) (n - want - 24) in
    write (write (write m₁ (at + 16) (m (c + 16))) (c + 8) want) (c + 16) at

module _ (want c n : ℕ) (bs : List (ℕ × ℕ)) (s : Machine) (some_bytes : want ≢ 0)
    (small : want + 40 < 2 ^ 64) (ne : c ≢ 0) (fits : c + 24 + n < 2 ^ 64)
    (size : s.mem (c + 8) ≡ n) (apart : ApartAll c n bs)
    (rest : IsBlocks s.mem (s.mem (c + 16)) bs) where
  Cut-whole : is_whole want n ≡ true → Cut want c n bs s (split c want s)
  unfolding split
  Cut-whole e =
      let test : ltb (s.mem (c + 8)) (u64 (want + 24 + 16)) ≡ true = ground arith in
      record {
        mem = s.mem;
        runs = rw test refl;
        sized = rw e size;
        chain = rw e rest;
        same = λ a h. refl;
      }

  Cut-in_two : is_whole want n ≡ false → Cut want c n bs s (split c want s)
  unfolding split
  Cut-in_two e =
      let test : ltb (s.mem (c + 8)) (u64 (want + 24 + 16)) ≡ false = ground arith in
      let big : want + 40 ≤ n = ground arith in
      let g = cut_words want c n s.mem in
      let left : sub64 (sub64 (s.mem (c + 8)) want) 24 ≡ n - want - 24 = omega arith in
      let at = c + 24 + want in
      let same : (a : ℕ) → Beyond a c n → g a ≡ s.mem a = λ a h. ground arith in
      let next : g (c + 16) ≡ at = rw ==_refl refl in
      let behind : g (at + 16) ≡ s.mem (c + 16) = ground arith in
      let left_size : g (at + 8) ≡ n - want - 24 = ground arith in
      let still = headers_kept g c n c n rest apart apart (λ a h l. same a h) in
      record {
        mem = g;
        runs = rw (test, left) refl;
        sized = rw e (ground arith);
        chain =
            rw (e, next)
              (block (omega arith) (omega arith) left_size
                (ApartAll-within c n at (n - want - 24) bs (omega arith) (omega arith) apart)
                (rw behind still));
        same = same;
      }

  pub split-Cut : Cut want c n bs s (split c want s)
  split-Cut = elim (Bool-cases (is_whole want n)) [ inl e ↦ Cut-whole e | inr e ↦ Cut-in_two e ]
