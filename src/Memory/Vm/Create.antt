-- ===== src/Memory/Vm/Create.antt =====
-- vm_space_create: a new address space is in order, without regions, and shares the upper half of the
-- kernel's addresses.
use dos_kernel.Common.{
  ℕ, suc, ◌+◌, ◌*◌, ◌/◌, ◌%◌, ◌^◌, ◌≤◌, ◌<◌, ◌≡◌, ◌≢◌, refl, sym, ap, ◌∙◌, arith, Bool, true, false,
  none, some, List, [], ◌∷◌, ltb, ◌==◌, Bool-cases, inl, inr, ok, Run, u64, ==_refl,
}
use native.Mathlib.Decide.{ℕ_discrete}
use dos_kernel.Memory.Machine.{Machine, Memory, phys_virt, write}
use dos_kernel.Memory.Frame.FreeList.{has, frame, frame_alloc-Allocated, phys_virt_inj, has_ne}
use dos_kernel.Memory.Paging.{index, present, child_at, entry_from}
use dos_kernel.Memory.Paging.Entries.{index-lt, zero_absent}
use dos_kernel.Memory.Paging.Tree.{Owner, own_table, Tables, entry_from-present, entry_from-absent}
use dos_kernel.Memory.Paging.Walk.{Ready, phys_virt-aligned}
use dos_kernel.Memory.Paging.Held.{SameTables, SameTables-entry}
use dos_kernel.Memory.Paging.Create.{Created, paging_create_pml4-Created}
use dos_kernel.Memory.Vm.{vm_space_create, frame_at}
use dos_kernel.Memory.Vm.Regions.{IsRegions}
use dos_kernel.Memory.Vm.Space.{IsSpace}

-- The fields of the new space.
abbrev pub filled : Memory → (space root base size : ℕ) → Memory
filled m space root base size =
    write
      (write (write (write (write m space root) (space + 8) base) (space + 16) (u64 (base + size)))
        (space + 24) base)
      (space + 32) 0

fields :
    (m : Memory) (space root base size : ℕ)
    → let g = filled m space root base size in
      (g space ≡ root)
      × (g (space + 16) ≡ u64 (base + size))
      × (g (space + 24) ≡ base)
      × (g (space + 32) ≡ 0)
fields m space root base size = ground arith

off_page :
    (m : Memory) (space root base size b : ℕ)
    → space % 4096 ≡ 0
    → b / 4096 * 4096 ≢ space
    → filled m space root base size b ≡ m b
off_page m space root base size b h out = ground arith

-- A run that made a space with two free frames.
pub record Opened (own : Owner) (base size : ℕ) (ps : List ℕ) (s : Machine) (run : Run Machine ℕ)
    : Type 0 where
  pub after : Machine
  pub space : ℕ
  pub root : ℕ
  pub runs : run ≡ ok space after
  pub is_space : IsSpace (own_table own root 3 0) ps space root [] after
  pub nonzero : space ≢ 0
  pub start : after.mem (space + 24) ≡ base
  pub end : after.mem (space + 16) ≡ u64 (base + size)
  pub upper : (w : ℕ) → 256 ≤ index w 4 → entry_from 3 root w after ≡ entry_from 3 s.kernel_pml4 w s
  pub lower : (w : ℕ) → index w 4 < 256 → entry_from 3 root w after ≡ 0

module _ {own : Owner} {s : Machine} {f f' : ℕ} {ps : List ℕ} (ready : Ready own s (f ∷ f' ∷ ps))
    (window : (0 < s.offset) × (s.offset + 2 ^ 52 ≤ 2 ^ 64))
    (kernel : own s.kernel_pml4 ≡ some (3, 0)) (base size : ℕ) where
  abbrev space : ℕ
  space = phys_virt s.offset f

  abbrev root : ℕ
  root = phys_virt s.offset f'

  -- The two pages are whole, apart, and not in use.
  pages_apart :
      (space % 4096 ≡ 0)
      × (root % 4096 ≡ 0)
      × (root < 2 ^ 64)
      × (space ≢ root)
      × (own space ≡ none)
      × (own root ≡ none)
  pages_apart =
      let (next, eq, rest, nz, lt, out) = frame_alloc-Allocated s (f ∷ f' ∷ ps) ready.apart.free in
      let (pf, lf, un) = ready.apart.pages f (rw ==_refl refl) in
      let (pf', lf', un') = ready.apart.pages f' (ground arith) in
      let (a, _) = phys_virt-aligned s.offset f ready.apart.window.0 pf in
      let (a', l') = phys_virt-aligned s.offset f' ready.apart.window.0 pf' in
      (
        a,
        a',
        l',
        (λ e. let same = phys_virt_inj s.offset f f' lt (omega arith) e in ground arith),
        un,
        un',
      )

  module _ (next : ℕ) (c : Created (record s { page_list = next }) f' ps) where
    abbrev g : Memory
    g = filled c.mem space root base size

    abbrev t : Machine
    t = record s { mem = g; page_list = c.next }

    -- A word apart from the two pages is kept.
    kept_word : (b : ℕ) → b / 4096 * 4096 ≢ space → b / 4096 * 4096 ≢ root → g b ≡ s.mem b
    kept_word b ne ne' = off_page c.mem space root base size b pages_apart.0 ne ∙ c.others b ne'

    same_tables : SameTables own s t
    same_tables = record {
      window = refl;
      words = λ u i o h.
          let (a, l) = ready.tables.aligned u o in
          let (_, _, _, _, un, un') = pages_apart in
          let page : (u + 8 * i) / 4096 * 4096 ≡ u = omega arith in
          kept_word (u + 8 * i) (λ e. cc (ap own (sym page ∙ e), o, un))
            (λ e. cc (ap own (sym page ∙ e), o, un'));
    }

    root_word : (i : ℕ) → i < 512 → g (root + 8 * i) ≡ c.mem (root + 8 * i)
    root_word i h =
        let (ws, wr, _, ne, _, _) = pages_apart in
        off_page c.mem space root base size (root + 8 * i) ws (λ e. ne (sym e ∙ omega arith))

    root_low : (i : ℕ) → i < 256 → present (g (root + 8 * i)) ≡ false
    root_low i h = ap present (root_word i (omega arith) ∙ c.lower i h) ∙ zero_absent

    root_high : (i : ℕ) → 256 ≤ i → i < 512 → g (root + 8 * i) ≡ s.mem (s.kernel_pml4 + 8 * i)
    root_high i l h =
        let (ka, ks) = ready.tables.aligned s.kernel_pml4 kernel in root_word i h ∙ c.upper i l h

    abbrev own' : Owner
    own' = own_table own root 3 0

    -- A table that was in use is neither of the pages.
    in_use : (u : ℕ) {x : ℕ × ℕ} → own u ≡ some x → (u == root) ≡ false
    in_use u o =
        let (_, _, _, _, un, un') = pages_apart in
        let ne : u ≢ root = λ e. cc (ap own e, o, un') in ground arith

    child_owned :
        (l p i : ℕ) (u : ℕ)
        → own u ≡ some (suc l, p)
        → i < 512
        → present (s.mem (u + 8 * i)) ≡ true
        → own' (child_at s.offset (s.mem (u + 8 * i))) ≡ some (l, p * 512 + i)
    child_owned l p i u o h there =
        let o' = ready.tables.child u l p i o h there in rw (in_use _ o') o'

    root_level : (l p : ℕ) → own' root ≡ some (suc l, p) → (l ≡ 2) × (p ≡ 0)
    root_level l p o = let e : some (3, 0) ≡ some (suc l, p) = rw ==_refl at o in ground arith

    of_root :
        (l p i : ℕ)
        → own' root ≡ some (suc l, p)
        → i < 512
        → present (g (root + 8 * i)) ≡ true
        → own' (child_at s.offset (g (root + 8 * i))) ≡ some (l, p * 512 + i)
    of_root l p i o h there =
        let (el, ep) = root_level l p o in
        elim (Bool-cases (ltb i 256)) [
          | inl low ↦ absurd (absent_present (root_low i (ground arith)) there)
          | inr high ↦
              let word = root_high i (ground arith) h in
              rw (el, ep, word) (child_owned 2 0 i s.kernel_pml4 kernel h (rw word at there))
        ]
      where
        absent_present : {b : Bool} → b ≡ false → b ≡ true → ⊥
        absent_present e f = cc (e, f)

    new-Tables : Tables own' t
    new-Tables = record { aligned = aligned; child = child }
      where
        aligned : (u : ℕ) {x : ℕ × ℕ} → own' u ≡ some x → (u % 4096 ≡ 0) × (u < 2 ^ 64)
        aligned u o = elim (ℕ_discrete u root) [
          | yes e ↦ let (_, wr, lr, _, _, _) = pages_apart in rw e (wr, lr)
          | no ne ↦
              let other : (u == root) ≡ false = ground arith in
              ready.tables.aligned u (rw other at o)
        ]

        child :
            (u l p i : ℕ)
            → own' u ≡ some (suc l, p)
            → i < 512
            → present (g (u + 8 * i)) ≡ true
            → own' (child_at s.offset (g (u + 8 * i))) ≡ some (l, p * 512 + i)
        child u l p i o h there = elim (ℕ_discrete u root) [
          | yes e ↦ rw e (of_root l p i (rw e at o) h (rw e at there))
          | no ne ↦
              let other : (u == root) ≡ false = ground arith in
              let o' : own u ≡ some (suc l, p) = rw other at o in
              let word = same_tables.words u i o' h in
              rw word (child_owned l p i u o' h (rw word at there))
        ]

    -- The frames that are still free.
    spare_page :
        (a : ℕ)
        → has a ps ≡ true
        → (a % 4096 ≡ 0)
          × (a < 2 ^ 52)
          × (own (phys_virt s.offset a) ≡ none)
          × (phys_virt s.offset a ≢ space)
          × (phys_virt s.offset a ≢ root)
    spare_page a h =
        let (next, eq, rest, nz, lt, out) =
          frame_alloc-Allocated s (f ∷ f' ∷ ps) ready.apart.free in
        let in_rest : has a (f' ∷ ps) ≡ true = ground arith in
        let (pa, la, un) = ready.apart.pages a (ground arith) in
        let ne = has_ne a f (f' ∷ ps) in_rest out in
        let ne' = has_ne a f' ps h c.distinct in
        (
          pa,
          la,
          un,
          (λ e. ne (phys_virt_inj s.offset a f (omega arith) lt e)),
          (λ e. ne' (phys_virt_inj s.offset a f' (omega arith) c.in_range e)),
        )

    new-Ready : Ready own' t ps
    new-Ready = record {
      tables = new-Tables;
      apart = record {
        window = ready.apart.window;
        free = frame c.free λ a h lt.
            let (pa, la, un, ne, ne') = spare_page a h in
            let (wa, _) = phys_virt-aligned s.offset a ready.apart.window.0 pa in
            let page : phys_virt s.offset a / 4096 * 4096 ≡ phys_virt s.offset a = omega arith in
            kept_word (phys_virt s.offset a) (λ e. ne (sym page ∙ e)) (λ e. ne' (sym page ∙ e));
        pages = λ a h.
            let (pa, la, un, ne, ne') = spare_page a h in
            let other : (phys_virt s.offset a == root) ≡ false = ground arith in
            (pa, la, rw other un);
      };
    }

    new-IsSpace : IsSpace own' ps space root [] t
    new-IsSpace =
        let (ws, wr, lr, ne, un, un') = pages_apart in
        let other : (space == root) ≡ false = ground arith in
        let (at_root, at_end, at_start, at_regions) = fields c.mem space root base size in
        record {
          ready = new-Ready;
          held = record {
            whole = ws;
            no_table = rw other un;
            no_frame = λ a h. let (pa, la, una, nea, nea') = spare_page a h in nea;
          };
          window = window;
          tables = at_root;
          root_owned = rw ==_refl refl;
          chain = rw at_regions IsRegions.nil;
          regions = tt;
        }

    upper_entry : (w : ℕ) → 256 ≤ index w 4 → entry_from 3 root w t ≡ entry_from 3 s.kernel_pml4 w s
    upper_entry w high =
        let (_, wr, lr, _, _, _) = pages_apart in
        let (ka, ks) = ready.tables.aligned s.kernel_pml4 kernel in
        let i = index w 4 in
        let word = root_high i high (index-lt w 4) in
        let same = same_tables.words s.kernel_pml4 i kernel (index-lt w 4) in
        let through = SameTables-entry ready.tables same_tables 3 s.kernel_pml4 0 w kernel in
        elim (Bool-cases (present (s.mem (s.kernel_pml4 + 8 * i)))) [
          | inl there ↦
              entry_from-present 2 root w t wr lr (ap present word ∙ there)
              ∙ ap (λ x. entry_from 2 (child_at s.offset x) w t) (word ∙ sym same)
              ∙ sym (entry_from-present 2 s.kernel_pml4 w t ka ks (ap present same ∙ there))
              ∙ through
          | inr gone ↦
              entry_from-absent 2 root w t wr lr (ap present word ∙ gone)
              ∙ sym (entry_from-absent 2 s.kernel_pml4 w s ka ks gone)
        ]

    lower_entry : (w : ℕ) → index w 4 < 256 → entry_from 3 root w t ≡ 0
    lower_entry w low =
        let (_, wr, lr, _, _, _) = pages_apart in
        entry_from-absent 2 root w t wr lr (root_low (index w 4) low)

space_nonzero :
    {own : Owner} {s : Machine} {f : ℕ} {ps : List ℕ}
    → Ready own s (f ∷ ps)
    → (0 < s.offset) × (s.offset + 2 ^ 52 ≤ 2 ^ 64)
    → phys_virt s.offset f ≢ 0
unfolding phys_virt
space_nonzero {f} ready window =
    let (pf, lf, un) = ready.apart.pages f (rw ==_refl refl) in omega arith

-- With two free frames and the kernel's root table in use, vm_space_create returns an address space in order
-- without regions, whose bump pointer and end are the base and the base plus the size; in it addresses of the
-- upper half are looked up as in the kernel's tables, and nothing is mapped in the lower half.
pub vm_space_create-Opened :
    (own : Owner) (s : Machine) (f f' : ℕ) (ps : List ℕ) (base size : ℕ)
    → Ready own s (f ∷ f' ∷ ps)
    → (0 < s.offset) × (s.offset + 2 ^ 52 ≤ 2 ^ 64)
    → own s.kernel_pml4 ≡ some (3, 0)
    → Opened own base size ps s (vm_space_create base size s)
unfolding vm_space_create frame_at
vm_space_create-Opened own s f f' ps base size ready window kernel =
    let (next, eq, rest, nz, lt, out) = frame_alloc-Allocated s (f ∷ f' ∷ ps) ready.apart.free in
    let (ws, wr, lr, ne, un, un') = pages_apart ready window kernel base size in
    let (ka, ks) = ready.tables.aligned s.kernel_pml4 kernel in
    let c =
      paging_create_pml4-Created (record s { page_list = next }) f' ps rest wr ka ks
        (λ e. cc (ap own e, kernel, un')) in
    let (at_root, at_end, at_start, at_regions) =
      fields c.mem (phys_virt s.offset f) (phys_virt s.offset f') base size in
    record {
      after = record s {
        mem = filled c.mem (phys_virt s.offset f) (phys_virt s.offset f') base size;
        page_list = c.next;
      };
      space = phys_virt s.offset f;
      root = phys_virt s.offset f';
      runs = rw (eq, c.runs) (unfold phys_virt in refl);
      is_space = new-IsSpace ready window kernel base size next c;
      nonzero = space_nonzero ready window;
      start = at_start;
      end = at_end;
      upper = upper_entry ready window kernel base size next c;
      lower = lower_entry ready window kernel base size next c;
    }
