-- ===== src/Memory/Vm/Map.antt =====
-- vm_map: the pages, the region and the bump pointer of one call.
use dos_kernel.Common.{
  ℕ, ◌+◌, ◌*◌, ◌/◌, ◌%◌, ◌^◌, ◌≤◌, ◌<◌, ◌≡◌, ◌≢◌, refl, sym, ap, ◌∙◌, arith, true, false, List, [],
  ◌∷◌, length, u64, ltb, leb, ◌==◌, ok, panicked, out_of_fuel, Run, Cmd, and_then, ◌>>◌, pure,
}
use dos_kernel.Memory.Machine.{Machine, phys_virt}
use dos_kernel.Memory.Paging.{entry_from, find}
use dos_kernel.Memory.Paging.Tree.{Owner}
use dos_kernel.Memory.Paging.Leaf.{page}
use dos_kernel.Memory.Paging.Range.{Covers, Maps, flushes, mapped, paging_map_page-Maps}
use dos_kernel.Memory.Vm.{page_up, reserve, vm_map, record_region, bump}
use dos_kernel.Memory.Vm.Regions.{page_up_lem}
use dos_kernel.Memory.Vm.Space.{IsSpace, Confined-IsSpace, Kept}
use dos_kernel.Memory.Vm.Record.{record_region-Recorded}

abbrev pub pages_of : ℕ → ℕ
pages_of size = (size + 4095) / 4096

-- A run that mapped the `n` pages from `v` on to the entries `e`, and recorded the region.
pub record Mapped (space root v n : ℕ) (e : ℕ → ℕ) (rs : List (ℕ × ℕ)) (s : Machine)
    (run : Run Machine ℕ) : Type 0 where
  pub after : Machine
  pub owner : Owner
  pub spare : List ℕ
  pub region : ℕ
  pub runs : run ≡ ok v after
  pub is_space : IsSpace owner spare space root ((region, v) ∷ rs) after
  pub sized : after.mem (region + 8) ≡ n * 4096
  pub moved : after.mem (space + 24) ≡ v + n * 4096
  pub here : (i w : ℕ) → i < n → page w ≡ page (v + i * 4096) → entry_from 3 root w after ≡ e i
  pub elsewhere : (w : ℕ) → ¬ Covers v n w → entry_from 3 root w after ≡ entry_from 3 root w s

pub rounded : (size : ℕ) → size < 2 ^ 48 → page_up size ≡ pages_of size * 4096
rounded size h = page_up_lem size (omega arith) ∙ ground arith

-- A flush changes neither a space nor a lookup.
flushed-IsSpace :
    {own : Owner} {ps : List ℕ} {space root : ℕ} {rs : List (ℕ × ℕ)} (t : Machine)
    (flushed : List ℕ)
    → IsSpace own ps space root rs t
    → IsSpace own ps space root rs (record t { flushed = flushed })
flushed-IsSpace t flushed is = record {
  ready = record {
    tables = record { aligned = is.ready.tables.aligned; child = is.ready.tables.child };
    apart = record {
      window = is.ready.apart.window;
      free = is.ready.apart.free;
      pages = is.ready.apart.pages;
    };
  };
  held = is.held;
  window = is.window;
  tables = is.tables;
  root_owned = is.root_owned;
  chain = is.chain;
  regions = is.regions;
}

pub same_entry :
    (root w : ℕ) (t : Machine) (flushed : List ℕ)
    → entry_from 3 root w (record t { flushed = flushed }) ≡ entry_from 3 root w t
unfolding entry_from find
same_entry root w t flushed = refl

-- The space after its tables were built and its pages flushed.
pub mapped-IsSpace :
    {own : Owner} {ps : List ℕ} {space root n v : ℕ} {e : ℕ → ℕ} {rs : List (ℕ × ℕ)} {s : Machine}
    {r : Run Machine (Unit {0})} (flushed : List ℕ) (m : Maps own ps root n v e s r)
    → IsSpace own ps space root rs s
    → IsSpace m.owner m.spare space root rs (record m.after { flushed = flushed })
      × Kept m.after.mem s.mem space
mapped-IsSpace flushed m is =
    let window : m.after.offset ≡ _ = ap (λ (x : Machine). x.offset) m.confined.rest in
    let (space_after, kept) = Confined-IsSpace m.confined is m.ready m.root_owned window in
    (flushed-IsSpace m.after flushed space_after, kept)

-- Two commands and a result, in either bracketing.
pub and_then_assoc :
    (r : Run Machine (Unit {0})) (g : Cmd Machine (Unit {0})) (v : ℕ)
    → and_then (and_then r (λ _. g)) (λ _. pure v) ≡ and_then r (λ _. g >> pure v)
and_then_assoc (ok a s) g v = refl
and_then_assoc panicked g v = refl
and_then_assoc out_of_fuel g v = refl

-- A run of record_region and bump behind the tables.
finished :
    {own : Owner} {ps : List ℕ} {space root v n : ℕ} {e : ℕ → ℕ} {rs : List (ℕ × ℕ)} {s : Machine}
    {r : Run Machine (Unit {0})} (m : Maps own ps root n v e s r) (flushed : List ℕ)
    → IsSpace own ps space root rs s
    → 3 * n + 1 ≤ length ps
    → s.mem (space + 24) ≡ v
    → v + n * 4096 < 2 ^ 64
    → let t = record m.after { flushed = flushed } in
      Mapped space root v n e rs s
        ((record_region space v (n * 4096) >> (bump space (n * 4096) >> pure v)) t)
finished {own} {ps} {space} {root} {v} {n} {e} {rs} {s} m flushed is enough at fits =
    go m.spare refl (omega (arith, m.used))
  where
    t : Machine
    t = record m.after { flushed = flushed }

    go :
        (spare : List ℕ)
        → m.spare ≡ spare
        → 0 < length spare
        → Mapped space root v n e rs s
            ((record_region space v (n * 4096) >> (bump space (n * 4096) >> pure v)) t)
    go [] eq h = absurd (omega arith)
    go (f ∷ spare) eq h =
        let (is', kept) = mapped-IsSpace flushed m is in
        let d = record_region-Recorded (rw eq at is') v (n * 4096) in
        record {
          after = d.after;
          owner = m.owner;
          spare = spare;
          region = phys_virt m.after.offset f;
          runs =
              sym (and_then_assoc (record_region space v (n * 4096) t) (bump space (n * 4096)) v)
              ∙ rw d.runs refl;
          is_space = d.is_space;
          sized = d.sized;
          moved = d.moved ∙ rw (kept 24 (omega arith), at) (omega arith);
          here = λ i w hi eq. d.lookups w ∙ same_entry root w m.after flushed ∙ m.here i w hi eq;
          elsewhere = λ w out. d.lookups w ∙ same_entry root w m.after flushed ∙ m.elsewhere w out;
        }

-- In an address space with three free frames for each page and one for the region, and with room below
-- its end, vm_map returns the bump pointer, maps the pages of the size there, keeps all other pages,
-- records the region and moves the pointer behind it; the space stays in order.
pub vm_map-Mapped :
    (own : Owner) (ps : List ℕ) (space root v paddr size flags : ℕ) (rs : List (ℕ × ℕ))
    (s : Machine)
    → IsSpace own ps space root rs s
    → space ≢ 0
    → s.mem (space + 24) ≡ v
    → 0 < size
    → size < 2 ^ 47
    → v % 4096 ≡ 0
    → paddr % 4096 ≡ 0
    → v + pages_of size * 4096 ≤ s.mem (space + 16)
    → s.mem (space + 16) < 2 ^ 64
    → paddr + pages_of size * 4096 ≤ 2 ^ 64
    → 3 * pages_of size + 1 ≤ length ps
    → Mapped space root v
        (pages_of size)
        (mapped paddr flags)
        rs
        s
        (vm_map space paddr size flags s)
unfolding vm_map reserve
vm_map-Mapped own ps space root v paddr size flags rs s is nz at pos small av ap' room end hp
      enough =
    let n = pages_of size in
    let up = rounded size (omega arith) in
    let z : (space == 0) ≡ false = ground arith in
    let p : (paddr % 0x1000 == 0) ≡ true = ground arith in
    let some : ltb 0 size ≡ true = ground arith in
    let plain : u64 (v + n * 4096) ≡ v + n * 4096 = omega arith in
    let fits : leb (v + n * 4096) (s.mem (space + 16)) ≡ true = ground arith in
    let (t, m, runs) =
      paging_map_page-Maps own s ps root n v paddr flags is.ready is.root_owned (omega arith) av ap'
        (omega arith) (omega arith) hp in
    let same : t ≡ m.after = cc (m.runs) in
    rw (z, p, some, up, at, plain, fits, is.tables, runs, same)
      (finished m (flushes n v m.after.flushed) is enough at (omega arith))
