-- ===== src/Memory/Paging/Held.antt =====
-- Pages that are neither tables nor spare frames: the structures of the kernel. What is written there
-- does not disturb the tables.
use dos_kernel.Common.{
  ℕ, zero, suc, ◌+◌, ◌*◌, ◌/◌, ◌%◌, ◌^◌, ◌<◌, ◌≡◌, ◌≢◌, refl, sym, ap, ap₂, ◌∙◌, arith, true, false,
  none, some, List, ◌∷◌, Bool-cases, Option-cases, inl, inr, ==_refl,
}
use dos_kernel.Memory.Machine.{Machine, phys_virt}
use dos_kernel.Memory.Frame.FreeList.{has, frame, IsFreeList, has_ne, phys_virt_inj}
use dos_kernel.Memory.Paging.{index, present, child_at, find, entry_from}
use dos_kernel.Memory.Paging.Entries.{index-lt, slot_lem}
use dos_kernel.Memory.Paging.Tree.{Owner, Tables, Apart, Spared, Confined}
use dos_kernel.Memory.Paging.Walk.{Ready, find_step, phys_virt-aligned}
use dos_kernel.Memory.Paging.Leaf.{find_absent, find_owned}
use dos_kernel.Memory.Paging.Map.{entry_of_leaf, entry_of_none}

-- The page at `q` is in use, and not as a table.
pub record Held (own : Owner) (o : ℕ) (ps : List ℕ) (q : ℕ) : Type 0 where
  pub whole : q % 4096 ≡ 0
  pub no_table : own q ≡ none
  pub no_frame : (f : ℕ) → has f ps ≡ true → phys_virt o f ≢ q

pub Held-Spared :
    {own : Owner} {o : ℕ} {ps : List ℕ} {q : ℕ} (k : ℕ)
    → k < 4096
    → Held own o ps q
    → Spared own o ps (q + k)
Held-Spared {own} {q} k h held =
    let whole = held.whole in
    let base : (q + k) / 4096 * 4096 ≡ q = omega arith in
    record { no_table = rw base held.no_table; no_frame = λ f i. rw base (held.no_frame f i) }

-- A held page stays held, and keeps its words, while tables are built.
pub Confined-Held :
    {own own' : Owner} {s t : Machine} {ps ps' : List ℕ} {q : ℕ}
    → Confined own s ps own' t ps'
    → Held own s.offset ps q
    → Held own' t.offset ps' q × ((k : ℕ) → k < 4096 → t.mem (q + k) ≡ s.mem (q + k))
Confined-Held {q} c held =
    let whole = held.whole in
    let base : (q + 0) / 4096 * 4096 ≡ q = omega arith in
    let (spared, _) = c.word (q + 0) (Held-Spared 0 (omega arith) held) in
    (
      record {
        whole = held.whole;
        no_table = rw base at spared.no_table;
        no_frame = λ f i. rw base at (spared.no_frame f i);
      },
      λ k h. (c.word (q + k) (Held-Spared k h held)).1,
    )

-- `t` has the tables of `s`, word by word.
pub record SameTables (own : Owner) (s t : Machine) : Type 0 where
  pub window : t.offset ≡ s.offset
  pub words :
      (u i : ℕ) {x : ℕ × ℕ} → own u ≡ some x → i < 512 → t.mem (u + 8 * i) ≡ s.mem (u + 8 * i)

module _ {own : Owner} {s t : Machine} (tables : Tables own s) (same : SameTables own s t) where
  same_child :
      (u i : ℕ) {x : ℕ × ℕ}
      → own u ≡ some x
      → i < 512
      → child_at t.offset (t.mem (u + 8 * i)) ≡ child_at s.offset (s.mem (u + 8 * i))
  same_child u i o h = ap₂ child_at same.window (same.words u i o h)

  pub SameTables-find : (l u p v : ℕ) → own u ≡ some (l, p) → find l u v t ≡ find l u v s
  SameTables-find zero u p v o = unfold find in refl
  SameTables-find (suc l) u p v o =
      let (a, h) = tables.aligned u o in
      let j = index v (l + 2) in
      let small = index-lt v (l + 2) in
      let at = slot_lem u j a h small in
      let word = same.words u j o small in
      elim (Bool-cases (present (s.mem (u + 8 * j)))) [
        | inl there ↦
            find_step l u v t at (ap present word ∙ there)
            ∙ ap (λ (x : ℕ). find l x v t) (same_child u j o small)
            ∙ SameTables-find l (child_at s.offset (s.mem (u + 8 * j))) (p * 512 + j) v
                (tables.child u l p j o small there)
            ∙ sym (find_step l u v s at there)
        | inr gone ↦
            find_absent l u v t at (ap present word ∙ gone) ∙ sym (find_absent l u v s at gone)
      ]

  pub SameTables-Tables : Tables own t
  SameTables-Tables = record {
    aligned = tables.aligned;
    child = λ u l p j o h there.
        let word = same.words u j o h in
        ap own (same_child u j o h) ∙ tables.child u l p j o h (ap present (sym word) ∙ there);
  }

  pub SameTables-entry :
      (l u p v : ℕ) → own u ≡ some (l, p) → entry_from l u v t ≡ entry_from l u v s
  SameTables-entry l u p v o = elim (Option-cases (find l u v s)) [
    | inl missing ↦
        entry_of_none l u v t (SameTables-find l u p v o ∙ missing)
        ∙ sym (entry_of_none l u v s missing)
    | inr (leaf, found) ↦
        let is_leaf = find_owned l u p v leaf tables o found in
        let (a, h) = tables.aligned leaf is_leaf in
        let at = slot_lem leaf (index v 1) a h (index-lt v 1) in
        entry_of_leaf l u v leaf t (SameTables-find l u p v o ∙ found)
        ∙ rw at (same.words leaf (index v 1) is_leaf (index-lt v 1))
        ∙ sym (entry_of_leaf l u v leaf s found)
  ]

  -- The frames that are still free keep their links.
  pub SameTables-Ready :
      {ps : List ℕ}
      → (s.offset % 4096 ≡ 0) × (s.offset < 2 ^ 64)
      → ((a : ℕ)
          → has a ps ≡ true
          → (a % 4096 ≡ 0) × (a < 2 ^ 52) × (own (phys_virt s.offset a) ≡ none))
      → IsFreeList s.offset s.mem t.page_list ps
      → ((a : ℕ) → has a ps ≡ true → t.mem (phys_virt s.offset a) ≡ s.mem (phys_virt s.offset a))
      → Ready own t ps
  SameTables-Ready window pages free kept = record {
    tables = SameTables-Tables;
    apart = record {
      window = rw same.window window;
      free = rw same.window (frame free λ a h lt. kept a h);
      pages = λ a h. rw same.window (pages a h);
    };
  }

-- A word of a held page is no entry of a table.
pub Held-no_entry :
    {own : Owner} {s : Machine} {ps : List ℕ} {q : ℕ} (k u i : ℕ) {x : ℕ × ℕ}
    → Tables own s
    → Held own s.offset ps q
    → own u ≡ some x
    → k < 4096
    → i < 512
    → u + 8 * i ≢ q + k
Held-no_entry {own} {q} k u i tables held o hk hi e =
    let (a, h) = tables.aligned u o in
    let whole = held.whole in let eq : u ≡ q = omega arith in cc (ap own eq, o, held.no_table)

-- The first word of a spare frame is no word of a held page.
pub Held-no_link :
    {own : Owner} {s : Machine} {ps : List ℕ} {q : ℕ} (k a : ℕ)
    → Apart own s ps
    → Held own s.offset ps q
    → has a ps ≡ true
    → k < 4096
    → phys_virt s.offset a ≢ q + k
Held-no_link {s} {q} k a apart held i hk e =
    let (pa, la, un) = apart.pages a i in
    let (au, lu) = phys_virt-aligned s.offset a apart.window.0 pa in
    let whole = held.whole in
    let eq : phys_virt s.offset a ≡ q = omega arith in held.no_frame a i eq

-- A spare frame that is taken is held from then on.
pub taken-Held :
    {own : Owner} {s : Machine} {f : ℕ} {ps : List ℕ}
    → Apart own s (f ∷ ps)
    → f < 2 ^ 64
    → has f ps ≡ false
    → Held own s.offset ps (phys_virt s.offset f)
taken-Held {s} {f} {ps} apart lt out =
    let (pf, lf, un) = apart.pages f (rw ==_refl refl) in
    let (a, h) = phys_virt-aligned s.offset f apart.window.0 pf in
    record {
      whole = a;
      no_table = un;
      no_frame = λ g i e.
          let (pg, lg, ug) = apart.pages g (ground arith) in
          has_ne g f ps i out (phys_virt_inj s.offset g f (omega arith) lt e);
    }
