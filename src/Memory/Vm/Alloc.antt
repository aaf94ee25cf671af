-- ===== src/Memory/Vm/Alloc.antt =====
-- vm_alloc: fresh frames, the region and the bump pointer of one call.
use dos_kernel.Common.{
  ℕ, ◌+◌, ◌*◌, ◌/◌, ◌%◌, ◌^◌, ◌≤◌, ◌<◌, ◌≡◌, ◌≢◌, refl, sym, subst, suc, ◌∙◌, arith, true, false,
  List, [], ◌∷◌, length, ltb, leb, ◌==◌, u64, ok, Run, ◌>>◌, pure,
}
use dos_kernel.Memory.Machine.{Machine, phys_virt}
use dos_kernel.Memory.Paging.Tree.{Owner}
use dos_kernel.Memory.Paging.Range.{mapped}
use dos_kernel.Memory.Frame.Taken.{Takes, Takes-tail}
use dos_kernel.Memory.Vm.{page_up, reserve, alloc_loop, record_region, bump, vm_alloc}
use dos_kernel.Memory.Vm.Space.{IsSpace}
use dos_kernel.Memory.Vm.Record.{record_region-Recorded}
use dos_kernel.Memory.Vm.Map.{Mapped, pages_of, rounded, and_then_assoc}
use dos_kernel.Memory.Vm.Backed.{Backs, alloc_loop-Backs}

-- A run of vm_alloc: page number `i` is mapped to `frames i`, a frame of its own, taken from the free list `ps`.
pub record Allots (ps : List ℕ) (space root v n flags : ℕ) (rs : List (ℕ × ℕ)) (s : Machine)
    (r : Run Machine ℕ) : Type 0 where
  pub frames : ℕ → ℕ
  pub mapped_there : Mapped space root v n (λ i. mapped (frames i) flags 0) rs s r
  pub taken : Takes n frames ps mapped_there.spare

-- The region and the bump pointer behind the loop.
recorded-Allots :
    {own : Owner} {ps : List ℕ} {space root v n flags : ℕ} {rs : List (ℕ × ℕ)} {s : Machine}
    {r : Run Machine (Unit {0})} (b : Backs own ps space root rs n v flags s r)
    → 4 * n + 1 ≤ length ps
    → s.mem (space + 24) ≡ v
    → v + n * 4096 < 2 ^ 64
    → Allots ps space root v n flags rs s
        ((record_region space v (n * 4096) >> (bump space (n * 4096) >> pure v)) b.after)
recorded-Allots {ps} {space} {root} {v} {n} {flags} {rs} {s} b enough at fits =
    go b.spare b.is_space b.taken (omega (arith, b.used))
  where
    go :
        (spare : List ℕ)
        → IsSpace b.owner spare space root rs b.after
        → Takes n b.frames ps spare
        → 0 < length spare
        → Allots ps space root v n flags rs s
            ((record_region space v (n * 4096) >> (bump space (n * 4096) >> pure v)) b.after)
    go [] is taken h = absurd (omega arith)
    go (f ∷ spare) is taken h =
        let d = record_region-Recorded is v (n * 4096) in
        let place : b.after.mem (space + 24) ≡ v = b.kept 24 (omega arith) ∙ at in
        record {
          frames = b.frames;
          taken = Takes-tail taken;
          mapped_there = record {
            after = d.after;
            owner = b.owner;
            spare = spare;
            region = phys_virt b.after.offset f;
            runs =
                sym (
                  and_then_assoc (record_region space v (n * 4096) b.after) (bump space (n * 4096))
                    v)
                ∙ rw d.runs refl;
            is_space = d.is_space;
            sized = d.sized;
            moved = d.moved ∙ omega (arith, place);
            here = λ i w h e. d.lookups w ∙ b.here i w h e;
            elsewhere = λ w out. d.lookups w ∙ b.elsewhere w out;
          };
        }

-- vm_alloc up to the region.
alloc_runs :
    (n space v size flags : ℕ) (s t : Machine)
    → space ≢ 0
    → 0 < size
    → page_up size ≡ n * 4096
    → s.mem (space + 24) ≡ v
    → v + n * 4096 ≤ s.mem (space + 16)
    → s.mem (space + 16) < 2 ^ 64
    → alloc_loop (suc n) space v (n * 4096) flags 0 s ≡ ok tt t
    → vm_alloc space size flags s
      ≡ (record_region space v (n * 4096) >> (bump space (n * 4096) >> pure v)) t
unfolding vm_alloc reserve
alloc_runs n space v size flags s t nz pos up at room end run =
    let z : (space == 0) ≡ false = ground arith in
    let some : ltb 0 size ≡ true = ground arith in
    let plain : u64 (v + n * 4096) ≡ v + n * 4096 = omega arith in
    let fits : leb (v + n * 4096) (s.mem (space + 16)) ≡ true = ground arith in
    let fuel : n * 4096 / 0x1000 + 1 ≡ suc n = omega arith in
    rw (z, some, up, at, plain, fits, fuel, run) refl

-- In an address space with four free frames for each page and one for the region, and with room below its end, vm_alloc
-- returns the bump pointer, puts a frame of its own from the free list behind each page of the size there, frames that
-- are no longer free afterwards, keeps all other pages, records the
-- region and moves the pointer behind it; the space stays in order.
pub vm_alloc-Allots :
    (own : Owner) (ps : List ℕ) (space root v size flags : ℕ) (rs : List (ℕ × ℕ)) (s : Machine)
    → IsSpace own ps space root rs s
    → space ≢ 0
    → s.mem (space + 24) ≡ v
    → 0 < size
    → size < 2 ^ 46
    → v % 4096 ≡ 0
    → v + pages_of size * 4096 ≤ s.mem (space + 16)
    → s.mem (space + 16) < 2 ^ 64
    → 4 * pages_of size + 1 ≤ length ps
    → Allots ps space root v (pages_of size) flags rs s (vm_alloc space size flags s)
vm_alloc-Allots own ps space root v size flags rs s is nz at pos small whole room end enough =
    let n = pages_of size in
    let up = rounded size (omega arith) in
    let start : v + 0 * 4096 ≡ v = omega arith in
    let b : Backs own ps space root rs n v flags s
        (alloc_loop (suc n) space v (n * 4096) flags 0 s) =
      subst
        (λ x.
          Backs own ps space root rs n x flags s (alloc_loop (suc n) space v (n * 4096) flags 0 s))
        start
        (alloc_loop-Backs n 0 v (n * 4096) flags own ps space root rs s is (omega arith)
          (omega arith) (omega arith) whole (omega arith)) in
    let runs = alloc_runs n space v size flags s b.after nz pos up at room end b.runs in
    subst (Allots ps space root v n flags rs s) (sym runs)
      (recorded-Allots b enough at (omega arith))
