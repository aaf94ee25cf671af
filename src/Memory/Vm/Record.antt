-- ===== src/Memory/Vm/Record.antt =====
-- A new region of an address space: its structure takes a free frame, joins the list, and the bump
-- pointer moves on.
use dos_kernel.Common.{
  ℕ, ◌+◌, ◌%◌, ◌^◌, ◌<◌, ◌≡◌, ◌≢◌, refl, sym, ap, ◌∙◌, arith, true, false, List, [], ◌∷◌, All, u64,
  ok, Run, ◌>>◌, ==_refl,
}
use dos_kernel.Memory.Machine.{Machine, Memory, phys_virt, write}
use dos_kernel.Memory.Frame.FreeList.{has, frame_alloc-Allocated}
use dos_kernel.Memory.Paging.{entry_from}
use dos_kernel.Memory.Paging.Tree.{Owner}
use dos_kernel.Memory.Paging.Walk.{phys_virt-aligned}
use dos_kernel.Memory.Paging.Held.{
  Held, SameTables, SameTables-Ready, SameTables-entry, Held-no_entry, taken-Held,
}
use dos_kernel.Memory.Vm.{record_region, region_alloc, region_insert, bump, frame_at}
use dos_kernel.Memory.Vm.Regions.{IsRegions, Off}
use dos_kernel.Memory.Vm.Space.{IsSpace, RegionsHeld, Kept, Kept-IsRegions}

-- Memory after the stores of record_region and bump.
abbrev pub recorded : Memory → (r space v size : ℕ) → Memory
recorded m r space v size =
    let new = write (write (write m r v) (r + 8) size) (r + 16) 0 in
    let linked = write (write new (r + 16) (m (space + 32))) (space + 32) r in
    write linked (space + 24) (u64 (m (space + 24) + size))

-- A page apart from the new structure and from the space keeps its words.
other_page :
    (m : Memory) (r space v size q k : ℕ)
    → r % 4096 ≡ 0
    → space % 4096 ≡ 0
    → q % 4096 ≡ 0
    → q ≢ r
    → q ≢ space
    → k < 4096
    → recorded m r space v size (q + k) ≡ m (q + k)
other_page m r space v size q k hr hs hq ne ne' h = ground arith

own_words :
    (m : Memory) (r space v size : ℕ)
    → r % 4096 ≡ 0
    → space % 4096 ≡ 0
    → r ≢ space
    → let g = recorded m r space v size in
      (g r ≡ v)
      × (g (r + 8) ≡ size)
      × (g (r + 16) ≡ m (space + 32))
      × (g (space + 32) ≡ r)
      × (g (space + 24) ≡ u64 (m (space + 24) + size))
      × (g space ≡ m space)
own_words m r space v size hr hs ne = ground arith

-- A run that recorded the region with base `v` in the structure at `r`.
pub record Recorded (own : Owner) (ps : List ℕ) (space root r v size : ℕ) (rs : List (ℕ × ℕ))
    (s : Machine) (run : Run Machine (Unit {0})) : Type 0 where
  pub after : Machine
  pub runs : run ≡ ok tt after
  pub is_space : IsSpace own ps space root ((r, v) ∷ rs) after
  pub sized : after.mem (r + 8) ≡ size
  pub moved : after.mem (space + 24) ≡ u64 (s.mem (space + 24) + size)
  pub lookups : (w : ℕ) → entry_from 3 root w after ≡ entry_from 3 root w s
  pub flushed : after.flushed ≡ s.flushed

module _ {own : Owner} {f : ℕ} {ps : List ℕ} {space root : ℕ} {rs : List (ℕ × ℕ)} {s : Machine}
    (is : IsSpace own (f ∷ ps) space root rs s) (v size : ℕ) where
  abbrev r : ℕ
  r = phys_virt s.offset f

  abbrev after_mem : Memory
  after_mem = recorded s.mem r space v size

  apart_from_r : (q : ℕ) → Held own s.offset (f ∷ ps) q → q ≢ r
  apart_from_r q held e = held.no_frame f (rw ==_refl refl) (sym e)

  weaken : (q : ℕ) → Held own s.offset (f ∷ ps) q → Held own s.offset ps q
  weaken q held = record {
    whole = held.whole;
    no_table = held.no_table;
    no_frame = λ g h. held.no_frame g (ground arith);
  }

  regions_after :
      (r_whole : r % 4096 ≡ 0) (rs : List (ℕ × ℕ))
      → RegionsHeld own s.offset (f ∷ ps) space rs
      → RegionsHeld own s.offset ps space rs
        × Off r rs
        × Off (r + 16) rs
        × All (λ q. Kept after_mem s.mem q.0) rs
  regions_after w [] all = (tt, tt, tt, tt)
  regions_after w (q ∷ rs) ((held, ne), all) =
      let (a, b, c, d) = regions_after w rs all in
      let ne' = apart_from_r q.0 held in
      let hq = held.whole in
      let hs = is.held.whole in
      (
        ((weaken q.0 held, ne), a),
        ((omega arith, omega arith), b),
        ((omega arith, omega arith), c),
        ((λ k h. other_page s.mem r space v size q.0 k w hs hq ne' ne h), d),
      )

  abbrev fresh : Memory
  fresh = write (write (write s.mem r v) (r + 8) size) (r + 16) 0

  abbrev linked_with : ℕ → Memory
  linked_with head = write (write fresh (r + 16) head) (space + 32) r

  abbrev result : ℕ → ℕ → ℕ → Machine
  result next head free = record s {
    mem = write (linked_with head) (space + 24) (u64 (free + size));
    page_list = next;
  }

  loads :
      r % 4096 ≡ 0
      → space % 4096 ≡ 0
      → r ≢ space
      → (fresh (space + 32) ≡ s.mem (space + 32))
        × ((head : ℕ) → linked_with head (space + 24) ≡ s.mem (space + 24))
  loads hr hs ne = (ground arith, λ head. ground arith)

  r_facts : (r % 4096 ≡ 0) × (r ≢ 0) × (r ≢ space) × (f < 2 ^ 64) × (has f ps ≡ false)
  unfolding phys_virt
  r_facts =
      let (next, eq, free, ne, lt, out) = frame_alloc-Allocated s (f ∷ ps) is.ready.apart.free in
      let (pf, lf, un) = is.ready.apart.pages f (rw ==_refl refl) in
      let window = is.window in
      (
        (phys_virt-aligned s.offset f is.ready.apart.window.0 pf).0,
        omega arith,
        λ e. apart_from_r space is.held (sym e),
        lt,
        out,
      )

  same_tables : (next : ℕ) → SameTables own s (record s { mem = after_mem; page_list = next })
  same_tables next =
      let (hr, nz, ne, lt, out) = r_facts in
      let new = taken-Held is.ready.apart lt out in
      record {
        window = refl;
        words = λ u i o h.
            let tables = is.ready.tables in
            let n1 = Held-no_entry 0 u i tables new o (omega arith) h in
            let n2 = Held-no_entry 8 u i tables new o (omega arith) h in
            let n3 = Held-no_entry 16 u i tables new o (omega arith) h in
            let n4 = Held-no_entry 24 u i tables is.held o (omega arith) h in
            let n5 = Held-no_entry 32 u i tables is.held o (omega arith) h in ground arith;
      }

  same_links :
      (a : ℕ) → has a ps ≡ true → after_mem (phys_virt s.offset a) ≡ s.mem (phys_virt s.offset a)
  same_links a i =
      let (hr, nz, ne, lt, out) = r_facts in
      let in_frames : has a (f ∷ ps) ≡ true = ground arith in
      let (pa, la, un) = is.ready.apart.pages a in_frames in
      let (whole, small) = phys_virt-aligned s.offset a is.ready.apart.window.0 pa in
      let not_r = (taken-Held is.ready.apart lt out).no_frame a i in
      let not_space = is.held.no_frame a in_frames in let hs = is.held.whole in ground arith

  -- record_region and the step of the bump pointer, from a space with a free frame.
  pub record_region-Recorded :
      Recorded own ps space root r v size rs s ((record_region space v size >> bump space size) s)
  unfolding record_region region_alloc region_insert bump frame_at
  record_region-Recorded =
      let (next, eq, free, nf, lf, of) = frame_alloc-Allocated s (f ∷ ps) is.ready.apart.free in
      let (hr, nz, ne, lt, out) = r_facts in
      let hs = is.held.whole in
      let (head, bumped) = loads hr hs ne in
      let (at_v, at_size, at_next, at_head, at_free, at_root) =
        own_words s.mem r space v size hr hs ne in
      let (regions, off, off', kept) = regions_after hr rs is.regions in
      let same = same_tables next in
      let t : Machine = record s { mem = after_mem; page_list = next } in
      let pages = λ (a : ℕ) (h : has a ps ≡ true). is.ready.apart.pages a (ground arith) in
      let final : result next (fresh (space + 32)) (linked_with (fresh (space + 32)) (space + 24))
          ≡ t =
        rw (bumped (fresh (space + 32)), head) refl in
      record {
        after = t;
        runs = rw eq (unfold phys_virt in ap (λ (x : Machine). ok tt x) final);
        is_space = record {
          ready = SameTables-Ready is.ready.tables same is.ready.apart.window pages free same_links;
          held = weaken space is.held;
          window = is.window;
          tables = at_root ∙ is.tables;
          root_owned = is.root_owned;
          chain = rw at_head (
              IsRegions.cons nz at_v off off'
                (rw at_next (Kept-IsRegions after_mem rs is.chain kept)));
          regions = ((taken-Held is.ready.apart lt out, ne), regions);
        };
        sized = at_size;
        moved = at_free;
        lookups = λ w. SameTables-entry is.ready.tables same 3 root 0 w is.root_owned;
        flushed = refl;
      }
