-- ===== src/Memory/Paging/Range.antt =====
-- paging_map_page and paging_unmap_page over ranges of pages.
mod Loops
unfoldable pub use Loops.*
use dos_kernel.Common.{
  ℕ, zero, suc, ◌+◌, ◌-◌, ◌*◌, ◌/◌, ◌%◌, ◌^◌, ◌≤◌, ◌<◌, ◌≡◌, ◌≢◌, refl, sym, ap, ◌∙◌, arith, true,
  false, some, List, ◌∷◌, length, ltb, u64, sub64, ◌==◌, ok, Run, Cmd, and_then,
}
use dos_kernel.Memory.Machine.{Machine, invalidate_loop}
use dos_kernel.Memory.Paging.{
  entry_from, leaf_entry, map_loop, unmap_loop, paging_map_page, paging_unmap_page,
}
use dos_kernel.Memory.Paging.Tree.{Owner, Confined, Confined-refl, Confined-trans}
use dos_kernel.Memory.Paging.Walk.{Ready}
use dos_kernel.Memory.Paging.Leaf.{page}
use dos_kernel.Memory.Paging.Map.{Sets, map_page-Sets, unmap_page-Sets}

-- The pages that were given to invlpg, the last one first, before those that were given earlier.
abbrev pub flushes : ℕ → ℕ → List ℕ → List ℕ
flushes zero v ps = ps
flushes (suc n) v ps = flushes n (v + 4096) (v ∷ ps)

invalidate_loop_lem :
    (n v length' : ℕ) (s : Machine)
    → length' ≡ n * 4096
    → v + n * 4096 < 2 ^ 64
    → invalidate_loop (suc n) v length' s ≡ ok tt (record s { flushed = flushes n v s.flushed })
unfolding invalidate_loop
invalidate_loop_lem zero v length' s e h =
    let stop : (length' == 0) ≡ true = ground arith in rw stop refl
invalidate_loop_lem (suc n) v length' s e h =
    let go : (length' == 0) ≡ false = ground arith in
    let next : u64 (v + 0x1000) ≡ v + 4096 = omega arith in
    let ih =
      invalidate_loop_lem n (u64 (v + 0x1000)) (sub64 length' 0x1000)
        (record s { flushed = v ∷ s.flushed }) (omega arith) (omega arith) in
    rw go (ih ∙ rw next refl)

-- A run that does this and then flushes each page of the range.
abbrev pub MapsFlushed :
    Owner → List ℕ → (root n v : ℕ) → (ℕ → ℕ) → Machine → Run Machine (Unit {0}) → Type 0
MapsFlushed own ps root n v e s r =
    (t : Machine) × Maps own ps root n v e s (ok tt t)
    × (r ≡ ok tt (record t { flushed = flushes n v t.flushed }))

Maps-flushed :
    {own : Owner} {ps : List ℕ} {root n v : ℕ} {e : ℕ → ℕ} {s : Machine}
    {r : Run Machine (Unit {0})} (fuel length' : ℕ) (m : Maps own ps root n v e s r)
    → fuel ≡ suc n
    → length' ≡ n * 4096
    → v + n * 4096 < 2 ^ 64
    → MapsFlushed own ps root n v e s (and_then r (λ _. invalidate_loop fuel v length'))
Maps-flushed fuel length' m ef el h = (
  m.after,
  record {
    after = m.after;
    owner = m.owner;
    spare = m.spare;
    runs = refl;
    ready = m.ready;
    root_owned = m.root_owned;
    used = m.used;
    within = m.within;
    confined = m.confined;
    here = m.here;
    elsewhere = m.elsewhere;
  },
  rw (m.runs, ef) (invalidate_loop_lem _ _ length' m.after el h),
)

-- paging_map_page, with three free frames for each page, maps each page of the range to its frame, keeps
-- every other page, writes to tables and free frames alone, and flushes each page of the range. The
-- range and the frames are whole pages, the range has less than 2 ^ 48 bytes, and neither wraps.
pub paging_map_page-Maps :
    (own : Owner) (s : Machine) (ps : List ℕ) (root n vaddr paddr flags : ℕ)
    → Ready own s ps
    → own root ≡ some (3, 0)
    → 3 * n ≤ length ps
    → vaddr % 4096 ≡ 0
    → paddr % 4096 ≡ 0
    → n < 2 ^ 36
    → vaddr + n * 4096 < 2 ^ 64
    → paddr + n * 4096 ≤ 2 ^ 64
    → MapsFlushed own ps root n vaddr
        (mapped paddr flags)
        s
        (paging_map_page root vaddr paddr (n * 4096) flags s)
unfolding paging_map_page
paging_map_page-Maps own s ps root n vaddr paddr flags ready o enough av ap' few hv hp =
    let whole : n * 4096 % 4096 ≡ 0 = omega arith in
    let fuel : n * 4096 / 0x1000 + 1 ≡ suc n = omega arith in
    let at : (vaddr + 0 * 4096 ≡ vaddr) × (paddr + 0 * 4096 ≡ paddr) = omega arith in
    let m : Maps own ps root n vaddr (mapped paddr flags) s
        (map_loop (suc n) root vaddr paddr (n * 4096) flags 0 s) =
      rw (at.0, at.1) at
        (map_loop-Maps n 0 vaddr paddr (n * 4096) flags own s ps root ready o enough (omega arith)
          (omega arith) (omega arith) hp few) in
    rw (av, ap', whole, fuel) (Maps-flushed (suc n) (n * 4096) m refl refl hv)

-- paging_unmap_page clears the entries of the pages of the range, keeps every other page, and flushes each
-- page of the range.
pub paging_unmap_page-Maps :
    (own : Owner) (s : Machine) (ps : List ℕ) (root n vaddr : ℕ)
    → Ready own s ps
    → own root ≡ some (3, 0)
    → vaddr % 4096 ≡ 0
    → n < 2 ^ 36
    → vaddr + n * 4096 < 2 ^ 64
    → MapsFlushed own ps root n vaddr (λ i. 0) s (paging_unmap_page root vaddr (n * 4096) s)
unfolding paging_unmap_page
paging_unmap_page-Maps own s ps root n vaddr ready o av few hv =
    let whole : n * 4096 % 4096 ≡ 0 = omega arith in
    let fuel : n * 4096 / 0x1000 + 1 ≡ suc n = omega arith in
    let at : vaddr + 0 * 4096 ≡ vaddr = omega arith in
    let m : Maps own ps root n vaddr (λ i. 0) s (unmap_loop (suc n) root vaddr (n * 4096) 0 s) =
      rw at at (
        unmap_loop-Maps n 0 vaddr (n * 4096) own s ps root ready o (omega arith) (omega arith)
          (omega arith) few) in
    rw (av, whole, fuel) (Maps-flushed (suc n) (n * 4096) m refl refl hv)
