-- ===== src/Memory/Paging/Walk/Descend.antt =====
-- One round of the walk of map_page: the table of the next level, which is made when it is missing.
use dos_kernel.Common.{
  ℕ, suc, ◌+◌, ◌*◌, ◌/◌, ◌%◌, ◌^◌, ◌≤◌, ◌<◌, ◌≡◌, ◌≢◌, refl, sym, ap, ◌∙◌, arith, true, false, none,
  some, List, [], ◌∷◌, length, ==_refl, Bool-cases, inl, inr, ok, Run, bit_or, bit_and,
}
use dos_kernel.Memory.Machine.{Machine, phys_virt}
use dos_kernel.Memory.Frame.FreeList.{
  IsFreeList, has, frame_alloc-Allocated, frame, phys_virt_inj, has_ne,
}
use dos_kernel.Memory.Frame.Taken.{Within, Within-cons}
use dos_kernel.Memory.Paging.{
  index, present, child_at, new_table, descend, intermediate_flags, entry_4k_address_mask,
}
use dos_kernel.Memory.Paging.Entries.{index-lt, slot_lem, new_entry}
use dos_kernel.Memory.Paging.Tree.{
  Owner, Tables, Apart, Extends, Extends-refl, Confined, Confined-refl,
}
use dos_kernel.Memory.Paging.Grow.{
  Growth, grown, grown_other, own', grow-Extends, grow-Tables, link, not_new,
}

-- A state with tables in use and frames to spare.
pub record Ready (own : Owner) (s : Machine) (ps : List ℕ) : Type 0 where
  pub tables : Tables own s
  pub apart : Apart own s ps

-- One level down: the table `c` is now linked where the index of `v` says.
pub record Descent (own : Owner) (s : Machine) (t₀ l p v : ℕ) (ps : List ℕ) (r : Run Machine ℕ)
    : Type 0 where
  pub after : Machine
  pub owner : Owner
  pub c : ℕ
  pub spare : List ℕ
  pub runs : r ≡ ok c after
  pub ready : Ready owner after spare
  pub extends : Extends own s owner after
  pub owned : owner c ≡ some (l, p * 512 + index v (l + 2))
  pub there : present (after.mem (t₀ + 8 * index v (l + 2))) ≡ true
  pub leads : child_at after.offset (after.mem (t₀ + 8 * index v (l + 2))) ≡ c
  pub used : length ps ≤ suc (length spare)
  pub within : Within spare ps
  pub confined : Confined own s ps owner after spare

pub phys_virt-aligned :
    (o a : ℕ) → o % 4096 ≡ 0 → a % 4096 ≡ 0 → (phys_virt o a % 4096 ≡ 0) × (phys_virt o a < 2 ^ 64)
unfolding phys_virt
phys_virt-aligned o a ho ha = omega arith

pub descend-present :
    {own : Owner} {s : Machine} {ps : List ℕ} (t₀ l p v flags : ℕ)
    → Ready own s ps
    → own t₀ ≡ some (suc l, p)
    → present (s.mem (t₀ + 8 * index v (l + 2))) ≡ true
    → Descent own s t₀ l p v ps (descend (l + 2) t₀ v flags s)
unfolding descend
descend-present {own} {s} {ps} t₀ l p v flags ready at there =
    let (a, h) = ready.tables.aligned t₀ at in
    let small = index-lt v (l + 2) in
    record {
      after = s;
      owner = own;
      c = child_at s.offset (s.mem (t₀ + 8 * index v (l + 2)));
      spare = ps;
      runs = rw (slot_lem t₀ (index v (l + 2)) a h small, there) refl;
      ready = ready;
      extends = Extends-refl own s;
      owned = ready.tables.child t₀ l p (index v (l + 2)) at small there;
      there = there;
      leads = refl;
      used = omega arith;
      within = λ q h. h;
      confined = Confined-refl own s ps;
    }

-- The spare frames stay apart from the tables when one of the frames becomes a table.
module _ {own : Owner} {s t : Machine} {l₀ p₀ t₀ i₀ c e : ℕ} (g : Growth own s t l₀ p₀ t₀ i₀ c e)
    {f : ℕ} {ps : List ℕ} (apart : Apart own s (f ∷ ps)) (is_c : c ≡ phys_virt s.offset f)
    (small : f < 2 ^ 64) (distinct : has f ps ≡ false) where
  spare_page :
      (a : ℕ)
      → has a ps ≡ true
      → (a % 4096 ≡ 0)
        × (a < 2 ^ 52)
        × (own (phys_virt s.offset a) ≡ none)
        × (phys_virt s.offset a ≢ c)
  spare_page a i =
      let (ha, la, un) = apart.pages a (ground arith) in
      let ne = has_ne a f ps i distinct in
      (ha, la, un, λ eq. ne (phys_virt_inj s.offset a f (omega arith) small (eq ∙ is_c)))

  spare_word :
      (a : ℕ)
      → has a ps ≡ true
      → grown s.mem c t₀ i₀ e (phys_virt s.offset a) ≡ s.mem (phys_virt s.offset a)
  spare_word a i =
      let (ha, la, un, ne) = spare_page a i in
      let u = phys_virt s.offset a in
      let (au, lu) = phys_virt-aligned s.offset a apart.window.0 ha in
      let at_word : u + 8 * 0 ≡ u = omega arith in
      let same =
        grown_other s.mem c t₀ i₀ e g.page (g.tables.aligned t₀ g.at).0 g.in_table
          (not_new g t₀ g.at) u 0 au (omega arith) ne (λ (eq, _). cc (ap own eq, un, g.at)) in
      rw at_word at same

  grow-Apart :
      (next : ℕ)
      → t ≡ record s { page_list = next; mem = grown s.mem c t₀ i₀ e }
      → IsFreeList s.offset s.mem next ps
      → Apart (own' g) t ps
  grow-Apart next eq free = rw eq (record {
    window = apart.window;
    free = frame free λ a i h. spare_word a i;
    pages = λ a i. let (ha, la, un, ne) = spare_page a i in (ha, la, ground arith);
  })

  -- The step writes to the frame and to the table alone.
  grow-Confined :
      (next : ℕ)
      → t ≡ record s { page_list = next; mem = grown s.mem c t₀ i₀ e }
      → Confined own s (f ∷ ps) (own' g) t ps
  grow-Confined next eq = rw eq (record {
    word = λ a spared.
        let table = (g.tables.aligned t₀ g.at).0 in
        let in_table = g.in_table in
        let page = g.page in
        let not_new : c ≢ a / 4096 * 4096 =
          λ e. spared.no_frame f (rw ==_refl refl) (sym is_c ∙ e) in
        let not_table : t₀ ≢ a / 4096 * 4096 = λ e. cc (ap own e, g.at, spared.no_table) in
        (
          record {
            no_table = ground (arith, spared.no_table);
            no_frame = λ q h. spared.no_frame q (ground arith);
          },
          ground arith,
        );
    rest = refl;
  })

pub descend_absent :
    {own : Owner} {s : Machine} {ps : List ℕ} (f t₀ l p v flags : ℕ)
    → Ready own s (f ∷ ps)
    → own t₀ ≡ some (suc l, p)
    → present (s.mem (t₀ + 8 * index v (l + 2))) ≡ false
    → Descent own s t₀ l p v (f ∷ ps) (descend (l + 2) t₀ v flags s)
unfolding descend new_table
descend_absent {own} {s} {ps} f t₀ l p v flags ready at gone =
    let (a, h) = ready.tables.aligned t₀ at in
    let i = index v (l + 2) in
    let (next, eq, free, ne, lt, out) = frame_alloc-Allocated s (f ∷ ps) ready.apart.free in
    let (pf, lf, un) = ready.apart.pages f (rw ==_refl refl) in
    let e = bit_or (intermediate_flags flags) (bit_and f entry_4k_address_mask) in
    let c = phys_virt s.offset f in
    let t : Machine = record s { page_list = next; mem = grown s.mem c t₀ i e } in
    let (pc, lc) = phys_virt-aligned s.offset f ready.apart.window.0 pf in
    let (isp, leads) = new_entry s.offset flags f pf lf in
    let g : Growth own s t l p t₀ i c e = record {
      tables = ready.tables;
      at = at;
      in_table = index-lt v (l + 2);
      absent = gone;
      page = pc;
      in_range = lc;
      unused = un;
      is_present = isp;
      leads = leads ∙ unfold phys_virt in refl;
      window = refl;
      becomes = refl;
    } in
    record {
      after = t;
      owner = own' g;
      c = c;
      spare = ps;
      runs =
          rw (slot_lem t₀ i a h (index-lt v (l + 2)), gone, eq)
            (unfold phys_virt in
              ap (λ (x : ℕ). ok x t) (ap (child_at s.offset) (link g) ∙ g.leads));
      ready = record {
        tables = grow-Tables g;
        apart = grow-Apart g ready.apart refl lt out next refl free;
      };
      extends = grow-Extends g;
      owned = rw ==_refl refl;
      there = rw (link g) isp;
      leads = rw (link g) g.leads;
      used = omega arith;
      within = Within-cons f ps ps λ q h. h;
      confined = grow-Confined g ready.apart refl lt out next refl;
    }

pub descend_lem :
    {own : Owner} {s : Machine} (ps : List ℕ) (t₀ l p v flags : ℕ)
    → Ready own s ps
    → 0 < length ps
    → own t₀ ≡ some (suc l, p)
    → Descent own s t₀ l p v ps (descend (l + 2) t₀ v flags s)
descend_lem {s} [] t₀ l p v flags ready some_left at = absurd (omega arith)
descend_lem {s} (f ∷ ps) t₀ l p v flags ready some_left at =
    elim (Bool-cases (present (s.mem (t₀ + 8 * index v (l + 2))))) [
      | inl there ↦ descend-present t₀ l p v flags ready at there
      | inr gone ↦ descend_absent f t₀ l p v flags ready at gone
    ]
