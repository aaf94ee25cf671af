-- ===== src/Boot/Prepared.antt =====
-- The memory part at boot: hhdm_init, frame_init and paging_init one after the other.
use dos_kernel.Common.{
  ℕ, ◌+◌, ◌*◌, ◌/◌, ◌%◌, ◌^◌, ◌≤◌, ◌<◌, ◌≡◌, refl, ap, ◌∙◌, arith, true, none, some, List, [], ◌∷◌,
  ◌++◌, length, ok, Run,
}
use dos_kernel.Memory.Machine.{Machine, hhdm_init, phys_virt}
use dos_kernel.Memory.Frame.{MemmapEntry, frame_init}
use dos_kernel.Memory.Frame.FreeList.{has, HasFree}
use dos_kernel.Memory.Frame.Init.{Untouched, usable_frames}
use dos_kernel.Memory.Frame.Usable.{Ascending, frame_init-Leaves}
use dos_kernel.Memory.Paging.{child_at, entry_from, find, leaf_entry, paging_init}
use dos_kernel.Memory.Paging.Tree.{Owner, Tables}
use dos_kernel.Memory.Paging.Walk.{Ready, phys_virt-aligned}
use dos_kernel.Memory.Paging.Held.{SameTables, SameTables-Tables, SameTables-entry}
use dos_kernel.Logging.Printk.{Framebuffer, Log, pos, codes, newline, log_info, printk_level}
use dos_kernel.Boot.{Loader, Image, Devices, System, init_memory}
use dos_kernel.Memory.Paging.Identity.{paging_init-Maps}

abbrev pub windowed : ℕ → Machine → Machine
windowed off m = record m { offset = off }

-- What the boot loader hands over: a tree of page tables under the root that cr3 names, seen through the window at
-- `off`, and the usable frames, which are whole pages below 2 ^ 52 and hold no table.
pub record HandedOver (own : Owner) (off root : ℕ) (frames : List ℕ) (m : Machine) : Type 0 where
  pub window : (off % 4096 ≡ 0) × (off < 2 ^ 64)
  pub root_at : child_at 0xFFFF800000000000 m.cr3 ≡ root
  pub root_owned : own root ≡ some (3, 0)
  pub tables : Tables own (windowed off m)
  pub empty : m.page_list ≡ 0
  pub pages :
      (f : ℕ) → has f frames ≡ true → (f % 4096 ≡ 0) × (f < 2 ^ 52) × (own (phys_virt off f) ≡ none)

module _ {own : Owner} {off root : ℕ} {frames : List ℕ} {m : Machine}
    (h : HandedOver own off root frames m) (t : Machine) (free : HasFree t frames)
    (kept : Untouched frames (windowed off m) t) where
  -- The words of the tables are not first words of frames.
  frame_init-SameTables : SameTables own (windowed off m) t
  frame_init-SameTables = record {
    window = ap (λ (x : Machine). x.offset) kept.rest;
    words = λ u i o less.
        let (a, l) = h.tables.aligned u o in
        kept.word (u + 8 * i) (λ f inside e.
          let (pf, lf, un) = h.pages f inside in
          let (af, uf) = phys_virt-aligned off f h.window.0 pf in
          let at : u ≡ phys_virt off f = omega arith in cc (ap own at, o, un));
  }

  frame_init-Ready : Ready own t frames
  frame_init-Ready =
      let at : t.offset ≡ off = ap (λ (x : Machine). x.offset) kept.rest in
      record {
        tables = SameTables-Tables h.tables frame_init-SameTables;
        apart = record { window = rw at h.window; free = free; pages = λ f i. rw at (h.pages f i) };
      }

-- A state of memory in which the first four megabytes are mapped to themselves and every other page as the boot loader left
-- it, and the frames that were not used for tables are free.
pub record Prepared (own : Owner) (off root : ℕ) (frames : List ℕ) (m after : Machine)
    : Type 0 where
  pub owner : Owner
  pub spare : List ℕ
  pub ready : Ready owner after spare
  pub root_owned : owner root ≡ some (3, 0)
  pub kernel : after.kernel_pml4 ≡ root
  pub window : after.offset ≡ off
  pub used : length frames ≤ 3 * 1024 + length spare
  pub identity : (w : ℕ) → w < 0x400000 → entry_from 3 root w after ≡ leaf_entry (w / 4096 * 4096) 3
  pub elsewhere :
      (w : ℕ)
      → 0x400000 ≤ w
      → w < 2 ^ 48
      → entry_from 3 root w after ≡ entry_from 3 root w (windowed off m)

same_lookup :
    (root w pml4 : ℕ) (t : Machine)
    → entry_from 3 root w (record t { kernel_pml4 = pml4 }) ≡ entry_from 3 root w t
unfolding entry_from find
same_lookup root w pml4 t = refl

-- The runs of frame_init and of paging_init behind it.
pub record Runs (own : Owner) (off root usable : ℕ) (map : List MemmapEntry) (m : Machine)
    : Type 0 where
  pub middle : Machine
  pub after : Machine
  pub framed : frame_init usable map (windowed off m) ≡ ok tt middle
  pub paged : paging_init middle ≡ ok tt after
  pub prepared : Prepared own off root (usable_frames usable map []) m after

prepare :
    (own : Owner) (off root usable : ℕ) (map : List MemmapEntry) (m : Machine)
    → Ascending usable 0x1000 map
    → HandedOver own off root (usable_frames usable map []) m
    → 3 * 1024 ≤ length (usable_frames usable map [])
    → Runs own off root usable map m
prepare own off root usable map m w h enough =
    let frames = usable_frames usable map [] in
    let (t, runs, free, kept) = frame_init-Leaves usable map (windowed off m) w h.empty in
    let cr3 : t.cr3 ≡ m.cr3 = ap (λ (x : Machine). x.cr3) kept.rest in
    let at : t.offset ≡ off = ap (λ (x : Machine). x.offset) kept.rest in
    let p =
      paging_init-Maps own t frames root (ap (child_at 0xFFFF800000000000) cr3 ∙ h.root_at)
        (frame_init-Ready h t free kept) h.root_owned enough in
    record {
      middle = t;
      after = p.after;
      framed = runs;
      paged = p.runs;
      prepared = record {
        owner = p.owner;
        spare = p.spare;
        ready = p.ready;
        root_owned = p.root_owned;
        kernel = ap (λ (x : Machine). x.kernel_pml4) p.confined.rest;
        window = ap (λ (x : Machine). x.offset) p.confined.rest ∙ at;
        used = p.used;
        identity = λ w l.
            p.here (w / 4096) w (omega arith) (omega arith)
            ∙ ap (λ x. leaf_entry x 3) (omega arith);
        elsewhere = λ w l u.
            p.elsewhere w (λ (i, less, e). absurd (omega (arith, e)))
            ∙ same_lookup root w root t
            ∙ SameTables-entry h.tables (frame_init-SameTables h t free kept) 3 root 0 w
                h.root_owned;
      };
    }

-- A run that prepares memory and besides only prints.
pub record PreparedSystem {T : Type 0} (own : Owner) (off root : ℕ) (frames : List ℕ) (s : System T)
    (r : Run (System T) (Unit {0})) : Type 0 where
  pub log : Log T
  pub memory : Machine
  pub runs : r ≡ ok tt (record s { log = log; apic = record s.apic { machine = memory } })
  pub prepared : Prepared own off root frames s.apic.machine memory

-- With at least 3072 usable frames and the tables that the boot loader hands over in order, the memory part is set up
-- without a stop: the first four megabytes are mapped to themselves, every other lookup below 2 ^ 48 and the tables
-- are kept, the frames that were not used are free, and no other part changes but for the messages.
pub init_memory-Prepared :
    {T Args : Type 0} (flanterm_fb_init : Framebuffer → T) (flanterm_write : ℕ → T → T)
    (format : (ℕ → Log T → Log T) → List ℕ → Args → Log T → Log T) (no_args revision : Args)
    (loader : Loader) (image : Image) (devices : Devices) (own : Owner) (root : ℕ) (s : System T)
    → Ascending loader.usable 0x1000 loader.map
    → HandedOver own loader.offset root (usable_frames loader.usable loader.map []) s.apic.machine
    → 3 * 1024 ≤ length (usable_frames loader.usable loader.map [])
    → PreparedSystem own loader.offset root
        (usable_frames loader.usable loader.map [])
        s
        (init_memory flanterm_fb_init flanterm_write format no_args revision loader image devices s)
unfolding init_memory hhdm_init
init_memory-Prepared flanterm_fb_init flanterm_write format no_args revision loader image devices
      own root s w h enough =
    let p = prepare own loader.offset root loader.usable loader.map s.apic.machine w h enough in
    let say : List ℕ → Log _ → Log _ =
      λ text. printk_level flanterm_write format (pos log_info) (text ++ newline ∷ []) no_args in
    record {
      log =
          say (codes "Paging initialized")
            (say (codes "Frame allocator initialized") (say (codes "HHDM initialized") s.log));
      memory = p.after;
      runs = rw (p.framed, p.paged) refl;
      prepared = p.prepared;
    }
