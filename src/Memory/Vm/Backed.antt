-- ===== src/Memory/Vm/Backed.antt =====
-- The loop of vm_alloc: a fresh frame behind each page of a range of an address space.
use dos_kernel.Common.{
  ℕ, zero, suc, ◌+◌, ◌-◌, ◌*◌, ◌%◌, ◌^◌, ◌≤◌, ◌<◌, ◌≡◌, ◌≢◌, refl, sym, ap, subst, ◌∙◌, arith, true,
  false, List, [], ◌∷◌, length, u64, ltb, ok, Run, ==_refl,
}
use dos_kernel.Memory.Machine.{Machine}
use dos_kernel.Memory.Frame.{frame_alloc}
use dos_kernel.Memory.Frame.FreeList.{IsFreeList, frame_alloc-Allocated, has}
use dos_kernel.Memory.Frame.Taken.{Within, Takes, Takes-nil, Takes-cons, then_frames}
use dos_kernel.Memory.Paging.{entry_from, find, paging_map_page}
use dos_kernel.Memory.Paging.Tree.{Owner}
use dos_kernel.Memory.Paging.Leaf.{page}
use dos_kernel.Memory.Paging.Held.{Held}
use dos_kernel.Memory.Paging.Range.{Covers, mapped, flushes, pages_apart, paging_map_page-Maps}
use dos_kernel.Memory.Vm.{alloc_loop}
use dos_kernel.Memory.Vm.Space.{IsSpace, RegionsHeld, Kept}
use dos_kernel.Memory.Vm.Map.{mapped-IsSpace, same_entry}

Held-cons : {own : Owner} {o f : ℕ} {ps : List ℕ} {q : ℕ} → Held own o (f ∷ ps) q → Held own o ps q
Held-cons held = record {
  whole = held.whole;
  no_table = held.no_table;
  no_frame = λ g h. held.no_frame g (ground arith);
}

RegionsHeld-cons :
    (own : Owner) (o f : ℕ) (ps : List ℕ) (space : ℕ) (rs : List (ℕ × ℕ))
    → RegionsHeld own o (f ∷ ps) space rs
    → RegionsHeld own o ps space rs
RegionsHeld-cons own o f ps space [] all = tt
RegionsHeld-cons own o f ps space (r ∷ rs) ((held, ne), all) =
    ((Held-cons held, ne), RegionsHeld-cons own o f ps space rs all)

-- A space whose next spare frame was taken.
taken-IsSpace :
    {own : Owner} {f next : ℕ} {ps : List ℕ} {space root : ℕ} {rs : List (ℕ × ℕ)} {s : Machine}
    → IsFreeList s.offset s.mem next ps
    → IsSpace own (f ∷ ps) space root rs s
    → IsSpace own ps space root rs (record s { page_list = next })
taken-IsSpace {rs} free is = record {
  ready = record {
    tables = record { aligned = is.ready.tables.aligned; child = is.ready.tables.child };
    apart = record {
      window = is.ready.apart.window;
      free = free;
      pages = λ a h. is.ready.apart.pages a (ground arith);
    };
  };
  held = Held-cons is.held;
  window = is.window;
  tables = is.tables;
  root_owned = is.root_owned;
  chain = is.chain;
  regions = RegionsHeld-cons _ _ _ _ _ rs is.regions;
}

taken_entry :
    (root w next : ℕ) (s : Machine)
    → entry_from 3 root w (record s { page_list = next }) ≡ entry_from 3 root w s
unfolding entry_from find
taken_entry root w next s = refl

-- A run that puts a frame of its own behind each of the `n` pages from `v` on, and keeps the space and all other
-- pages.
pub record Backs (own : Owner) (ps : List ℕ) (space root : ℕ) (rs : List (ℕ × ℕ)) (n v flags : ℕ)
    (s : Machine) (r : Run Machine (Unit {0})) : Type 0 where
  pub after : Machine
  pub owner : Owner
  pub spare : List ℕ
  pub frames : ℕ → ℕ
  pub runs : r ≡ ok tt after
  pub is_space : IsSpace owner spare space root rs after
  pub kept : Kept after.mem s.mem space
  pub used : length ps ≤ 4 * n + length spare
  pub taken : Takes n frames ps spare
  pub here :
      (i w : ℕ)
      → i < n
      → page w ≡ page (v + i * 4096)
      → entry_from 3 root w after ≡ mapped (frames i) flags 0
  pub elsewhere : (w : ℕ) → ¬ Covers v n w → entry_from 3 root w after ≡ entry_from 3 root w s

-- One round of the loop.
record OneFrame (own : Owner) (f : ℕ) (ps : List ℕ) (space root : ℕ) (rs : List (ℕ × ℕ))
    (v flags : ℕ) (s : Machine) : Type 0 where
  next : ℕ
  after : Machine
  owner : Owner
  spare : List ℕ
  alloc : frame_alloc s ≡ ok f (record s { page_list = next })
  paged : paging_map_page root v f 0x1000 flags (record s { page_list = next }) ≡ ok tt after
  is_space : IsSpace owner spare space root rs after
  kept : Kept after.mem s.mem space
  used : length ps ≤ 3 + length spare
  within : Within spare ps
  fresh : has f ps ≡ false
  here : (w : ℕ) → page w ≡ page v → entry_from 3 root w after ≡ mapped f flags 0
  elsewhere : (w : ℕ) → page w ≢ page v → entry_from 3 root w after ≡ entry_from 3 root w s

one_frame :
    (own : Owner) (f : ℕ) (ps : List ℕ) (space root : ℕ) (rs : List (ℕ × ℕ)) (v flags : ℕ)
    (s : Machine)
    → IsSpace own (f ∷ ps) space root rs s
    → 3 ≤ length ps
    → v % 4096 ≡ 0
    → v + 4096 < 2 ^ 64
    → OneFrame own f ps space root rs v flags s
one_frame own f ps space root rs v flags s is enough whole fits =
    let (next, alloc, free, nz, lt, out) = frame_alloc-Allocated s (f ∷ ps) is.ready.apart.free in
    let (pf, lf, un) = is.ready.apart.pages f (rw ==_refl refl) in
    let is₁ = taken-IsSpace free is in
    let (t, m, run) =
      paging_map_page-Maps own (record s { page_list = next }) ps root 1 v f flags is₁.ready
        is.root_owned (omega arith) whole pf (omega arith) (omega arith) (omega arith) in
    let same_state : t ≡ m.after = cc (m.runs) in
    let flushed = flushes 1 v m.after.flushed in
    let (is₂, kept) = mapped-IsSpace flushed m is₁ in
    let same = λ (w : ℕ). same_entry root w m.after flushed in
    record {
      next = next;
      after = record m.after { flushed = flushed };
      owner = m.owner;
      spare = m.spare;
      alloc = alloc;
      paged = rw same_state at run;
      is_space = is₂;
      kept = kept;
      used = omega (arith, m.used);
      within = m.within;
      fresh = out;
      here = λ w e. same w ∙ m.here 0 w (omega arith) (e ∙ ap page (omega arith));
      elsewhere = λ w ne.
          same w
          ∙ m.elsewhere w (λ (i, h, e). ne (e ∙ ap page (omega arith)))
          ∙ taken_entry root w next s;
    }

alloc_step :
    (fuel space root v size flags k f next : ℕ) (s t : Machine)
    → k * 4096 < size
    → size < 2 ^ 64 - 4096
    → v + k * 4096 < 2 ^ 64
    → s.mem space ≡ root
    → frame_alloc s ≡ ok f (record s { page_list = next })
    → paging_map_page root (v + k * 4096) f 0x1000 flags (record s { page_list = next }) ≡ ok tt t
    → alloc_loop (suc fuel) space v size flags (k * 4096) s
      ≡ alloc_loop fuel space v size flags ((k + 1) * 4096) t
unfolding alloc_loop
alloc_step fuel space root v size flags k f next s t more small fits at alloc paged =
    let go : ltb (k * 4096) size ≡ true = ground arith in
    let place : u64 (v + k * 4096) ≡ v + k * 4096 = omega arith in
    let up : u64 (k * 4096 + 0x1000) ≡ (k + 1) * 4096 = omega arith in
    rw (go, alloc, at, place, paged, up) refl

-- One page, and `n` more.
backed_by :
    {own : Owner} {f : ℕ} {ps : List ℕ} {space root : ℕ} {rs : List (ℕ × ℕ)} {n v flags : ℕ}
    {s : Machine} {r : Run Machine (Unit {0})} (v' : ℕ)
    (one : OneFrame own f ps space root rs v flags s)
    → Backs one.owner one.spare space root rs n v' flags one.after r
    → v' ≡ v + 4096
    → n < 2 ^ 36 - 1
    → Backs own (f ∷ ps) space root rs (suc n) v flags s r
backed_by {f} {root} {n} {v} {flags} {s} v' one more up few = record {
  after = more.after;
  owner = more.owner;
  spare = more.spare;
  frames = then_frames f more.frames;
  runs = more.runs;
  is_space = more.is_space;
  kept = λ k h. more.kept k h ∙ one.kept k h;
  used = omega (arith, one.used, more.used);
  taken = Takes-cons one.fresh one.within more.taken;
  here = at;
  elsewhere = λ w out.
      more.elsewhere w (λ (i, h, e). out (suc i, omega arith, e ∙ ap page (omega arith)))
      ∙ one.elsewhere w (λ e. out (0, omega arith, e ∙ ap page (omega arith)));
}
  where
    at :
        (i w : ℕ)
        → i < suc n
        → page w ≡ page (v + i * 4096)
        → entry_from 3 root w more.after ≡ mapped (then_frames f more.frames i) flags 0
    at zero w h e =
        let first : page w ≡ page v = e ∙ ap page (omega arith) in
        more.elsewhere w
          (λ (j, hj, eq). pages_apart v j (omega arith) (sym first ∙ eq ∙ ap page (omega arith)))
        ∙ one.here w first
    at (suc i) w h e = more.here i w (omega arith) (e ∙ ap page (omega arith))

-- The loop from page `k` on.
pub alloc_loop-Backs :
    (n k v size flags : ℕ) (own : Owner) (ps : List ℕ) (space root : ℕ) (rs : List (ℕ × ℕ))
    (s : Machine)
    → IsSpace own ps space root rs s
    → 4 * n ≤ length ps
    → (k + n) * 4096 ≡ size
    → size < 2 ^ 47
    → v % 4096 ≡ 0
    → v + size < 2 ^ 64
    → Backs own ps space root rs n
        (v + k * 4096)
        flags
        s
        (alloc_loop (suc n) space v size flags (k * 4096) s)
unfolding alloc_loop
alloc_loop-Backs zero k v size flags own ps space root rs s is enough e small whole fits =
    let stop : ltb (k * 4096) size ≡ false = ground arith in
    rw stop (record {
      after = s;
      owner = own;
      spare = ps;
      frames = λ i. 0;
      runs = refl;
      is_space = is;
      kept = λ j h. refl;
      used = omega arith;
      taken = Takes-nil (λ i. 0) ps;
      here = λ i w h. absurd (omega arith);
      elsewhere = λ w out. refl;
    })
alloc_loop-Backs (suc n) k v size flags own [] space root rs s is enough e small whole fits =
    absurd (omega arith)
alloc_loop-Backs (suc n) k v size flags own (f ∷ ps) space root rs s is enough e small whole fits =
    let one =
      one_frame own f ps space root rs (v + k * 4096) flags s is (omega arith) (omega arith)
        (omega arith) in
    let rest =
      alloc_loop-Backs n (k + 1) v size flags one.owner one.spare space root rs one.after
        one.is_space (omega (arith, one.used)) (omega arith) small whole fits in
    let step =
      alloc_step (suc n) space root v size flags k f one.next s one.after (omega arith)
        (omega arith) (omega arith) is.tables one.alloc one.paged in
    subst (Backs own (f ∷ ps) space root rs (suc n) (v + k * 4096) flags s) (sym step)
      (backed_by (v + (k + 1) * 4096) one rest (omega arith) (omega arith))
