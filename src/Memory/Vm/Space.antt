-- ===== src/Memory/Vm/Space.antt =====
-- An address space whose structures lie apart from the page tables and the free frames: what the routines
-- of vm.c keep, and how a new region is recorded.
use dos_kernel.Common.{ℕ, ◌+◌, ◌^◌, ◌≤◌, ◌<◌, ◌≡◌, ◌≢◌, ◌∙◌, arith, some, List, [], ◌∷◌, All}
use dos_kernel.Memory.Machine.{Machine, Memory}
use dos_kernel.Memory.Paging.Tree.{Owner, Confined}
use dos_kernel.Memory.Paging.Walk.{Ready}
use dos_kernel.Memory.Paging.Held.{Held, Confined-Held}
use dos_kernel.Memory.Vm.Regions.{IsRegions, HasRegions, same-IsRegions}

abbrev pub RegionsHeld : Owner → ℕ → List ℕ → ℕ → List (ℕ × ℕ) → Type 0
RegionsHeld own o ps space = All (λ r. Held own o ps r.0 × (r.0 ≢ space))

-- The address space at `space` with the root table `root` and the regions `rs`, given by the addresses
-- of their structures and their bases. Each structure stands at the start of a page of its own. The
-- window of physical memory does not wrap.
pub record IsSpace (own : Owner) (ps : List ℕ) (space root : ℕ) (rs : List (ℕ × ℕ)) (s : Machine)
    : Type 0 where
  pub ready : Ready own s ps
  pub held : Held own s.offset ps space
  pub window : (0 < s.offset) × (s.offset + 2 ^ 52 ≤ 2 ^ 64)
  pub tables : s.mem space ≡ root
  pub root_owned : own root ≡ some (3, 0)
  pub chain : HasRegions space s rs
  pub regions : RegionsHeld own s.offset ps space rs

-- The words of a structure, by their place in its page.
abbrev pub Kept : Memory → Memory → ℕ → Type 0
Kept g m q = (k : ℕ) → k < 4096 → g (q + k) ≡ m (q + k)

pub Kept-zero : (g m : Memory) (q : ℕ) → Kept g m q → g q ≡ m q
Kept-zero g m q kept = let z : q + 0 ≡ q = omega arith in rw z at (kept 0 (omega arith))

-- Regions whose words are kept are regions still.
pub Kept-IsRegions :
    {m : Memory} (g : Memory) {p : ℕ} (rs : List (ℕ × ℕ))
    → IsRegions m p rs
    → All (λ r. Kept g m r.0) rs
    → IsRegions g p rs
Kept-IsRegions {m} g rs chain kept = same-IsRegions chain (each rs kept)
  where
    each :
        (rs : List (ℕ × ℕ))
        → All (λ r. Kept g m r.0) rs
        → All (λ r. (g r.0 ≡ m r.0) × (g (r.0 + 16) ≡ m (r.0 + 16))) rs
    each [] all = tt
    each (r ∷ rs) (here, all) = ((Kept-zero g m r.0 here, here 16 (omega arith)), each rs all)

module _ {own own' : Owner} {s t : Machine} {ps ps' : List ℕ}
    (c : Confined own s ps own' t ps') where
  Confined-regions :
      (space : ℕ) (rs : List (ℕ × ℕ))
      → RegionsHeld own s.offset ps space rs
      → RegionsHeld own' t.offset ps' space rs × All (λ r. Kept t.mem s.mem r.0) rs
  Confined-regions space [] all = (tt, tt)
  Confined-regions space (r ∷ rs) ((held, ne), all) =
      let (held', kept) = Confined-Held c held in
      let (all', kepts) = Confined-regions space rs all in (((held', ne), all'), (kept, kepts))

  -- Building tables keeps an address space.
  pub Confined-IsSpace :
      {space root : ℕ} {rs : List (ℕ × ℕ)}
      → IsSpace own ps space root rs s
      → Ready own' t ps'
      → own' root ≡ some (3, 0)
      → t.offset ≡ s.offset
      → IsSpace own' ps' space root rs t × Kept t.mem s.mem space
  Confined-IsSpace {space} {root} {rs} is ready o window =
      let (held, kept) = Confined-Held c is.held in
      let (regions, kepts) = Confined-regions space rs is.regions in
      let head : t.mem (space + 32) ≡ s.mem (space + 32) = kept 32 (omega arith) in
      (
        record {
          ready = ready;
          held = held;
          window = rw window is.window;
          tables = Kept-zero t.mem s.mem space kept ∙ is.tables;
          root_owned = o;
          chain = rw head (Kept-IsRegions t.mem rs is.chain kepts);
          regions = regions;
        },
        kept,
      )
