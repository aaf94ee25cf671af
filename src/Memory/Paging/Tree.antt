-- ===== src/Memory/Paging/Tree.antt =====
-- The tables that hang under a root form a tree. A ghost map names for each table in use its level
-- (counted from the lowest) and the virtual address prefix that leads to it, so no table is reached
-- in two ways.
use dos_kernel.Common.{
  ℕ, zero, suc, ◌+◌, ◌*◌, ◌/◌, ◌%◌, ◌^◌, ◌<◌, ◌≡◌, ◌≢◌, refl, ap, ◌∙◌, arith, true, false, Option,
  none, some, List, ◌==◌, if◌then◌else◌,
}
use dos_kernel.Memory.Machine.{Machine, phys_virt}
use dos_kernel.Memory.Frame.FreeList.{has, HasFree}
use dos_kernel.Memory.Paging.{index, present, child_at, find, entry_from}
use dos_kernel.Memory.Paging.Entries.{index-lt, slot_lem, zero_absent}

abbrev pub Owner : Type 0
Owner = ℕ → Option (ℕ × ℕ)

abbrev pub own_table : Owner → ℕ → ℕ → ℕ → Owner
own_table own c l p t = if t == c then some (l, p) else own t

pub record Tables (own : Owner) (s : Machine) : Type 0 where
  pub aligned : (t : ℕ) {x : ℕ × ℕ} → own t ≡ some x → (t % 4096 ≡ 0) × (t < 2 ^ 64)
  pub child :
      (t l p i : ℕ)
      → own t ≡ some (suc l, p)
      → i < 512
      → present (s.mem (t + 8 * i)) ≡ true
      → own (child_at s.offset (s.mem (t + 8 * i))) ≡ some (l, p * 512 + i)

-- The free frames `ps` are whole pages below 2 ^ 52, and none of them is a table in use.
pub record Apart (own : Owner) (s : Machine) (ps : List ℕ) : Type 0 where
  pub window : (s.offset % 4096 ≡ 0) × (s.offset < 2 ^ 64)
  pub free : HasFree s ps
  pub pages :
      (a : ℕ)
      → has a ps ≡ true
      → (a % 4096 ≡ 0) × (a < 2 ^ 52) × (own (phys_virt s.offset a) ≡ none)

-- What `t` does to the tables of `s`: every table stays, a present entry stays, and every lookup from
-- a table of `s` finds what it found.
pub record Extends (own : Owner) (s : Machine) (own' : Owner) (t : Machine) : Type 0 where
  pub window : t.offset ≡ s.offset
  pub keeps : (u : ℕ) {x : ℕ × ℕ} → own u ≡ some x → own' u ≡ some x
  pub entries :
      (u i : ℕ) {x : ℕ × ℕ}
      → own u ≡ some x
      → i < 512
      → present (s.mem (u + 8 * i)) ≡ true
      → t.mem (u + 8 * i) ≡ s.mem (u + 8 * i)
  pub lookups : (l u p v : ℕ) → own u ≡ some (l, p) → entry_from l u v t ≡ entry_from l u v s

pub Extends-refl : (own : Owner) (s : Machine) → Extends own s own s
Extends-refl own s = record {
  window = refl;
  keeps = λ u e. e;
  entries = λ u i e h q. refl;
  lookups = λ l u p v e. refl;
}

pub Extends-trans :
    {own own' own'' : Owner} {s t r : Machine}
    → Extends own s own' t
    → Extends own' t own'' r
    → Extends own s own'' r
Extends-trans f g = record {
  window = g.window ∙ f.window;
  keeps = λ u e. g.keeps u (f.keeps u e);
  entries =
      λ u i e h q. let old = f.entries u i e h q in g.entries u i (f.keeps u e) h (rw old q) ∙ old;
  lookups = λ l u p v e. g.lookups l u p v (f.keeps u e) ∙ f.lookups l u p v e;
}

-- The word `a` lies in no table in use and in no spare frame.
pub record Spared (own : Owner) (o : ℕ) (ps : List ℕ) (a : ℕ) : Type 0 where
  pub no_table : own (a / 4096 * 4096) ≡ none
  pub no_frame : (f : ℕ) → has f ps ≡ true → phys_virt o f ≢ a / 4096 * 4096

-- Only tables, spare frames and the list of free frames are written: any other word keeps its value and
-- stays spared, and so do the other variables.
pub record Confined (own : Owner) (s : Machine) (ps : List ℕ) (own' : Owner) (t : Machine)
    (ps' : List ℕ) : Type 0 where
  pub word : (a : ℕ) → Spared own s.offset ps a → Spared own' t.offset ps' a × (t.mem a ≡ s.mem a)
  pub rest : t ≡ record s { mem = t.mem; page_list = t.page_list }

pub Confined-refl : (own : Owner) (s : Machine) (ps : List ℕ) → Confined own s ps own s ps
Confined-refl own s ps = record { word = λ a spared. (spared, refl); rest = refl }

pub Confined-trans :
    {own own' own'' : Owner} {s t r : Machine} {ps ps' ps'' : List ℕ}
    → Confined own s ps own' t ps'
    → Confined own' t ps' own'' r ps''
    → Confined own s ps own'' r ps''
Confined-trans {r} f g = record {
  word =
      λ a spared. let (mid, e) = f.word a spared in let (last, e') = g.word a mid in (last, e' ∙ e);
  rest =
      let with_memory : Machine → Machine =
        λ x. record x { mem = r.mem; page_list = r.page_list } in
      g.rest ∙ ap with_memory f.rest;
}

-- A lookup, one level at a time.
pub entry_from-zero :
    (t v : ℕ) (s : Machine)
    → t % 4096 ≡ 0
    → t < 2 ^ 64
    → entry_from zero t v s ≡ s.mem (t + 8 * index v 1)
unfolding entry_from find
entry_from-zero t v s a h = rw (slot_lem t (index v 1) a h (index-lt v 1)) refl

pub entry_from-present :
    (l t v : ℕ) (s : Machine)
    → t % 4096 ≡ 0
    → t < 2 ^ 64
    → present (s.mem (t + 8 * index v (l + 2))) ≡ true
    → entry_from (suc l) t v s
      ≡ entry_from l (child_at s.offset (s.mem (t + 8 * index v (l + 2)))) v s
unfolding entry_from find
entry_from-present l t v s a h e =
    ground (arith, slot_lem t (index v (l + 2)) a h (index-lt v (l + 2)))

pub entry_from-absent :
    (l t v : ℕ) (s : Machine)
    → t % 4096 ≡ 0
    → t < 2 ^ 64
    → present (s.mem (t + 8 * index v (l + 2))) ≡ false
    → entry_from (suc l) t v s ≡ 0
unfolding entry_from find
entry_from-absent l t v s a h e =
    ground (arith, slot_lem t (index v (l + 2)) a h (index-lt v (l + 2)))

-- Through an empty table nothing is found.
pub entry_from-empty :
    (l t v : ℕ) (s : Machine)
    → t % 4096 ≡ 0
    → t < 2 ^ 64
    → ((i : ℕ) → i < 512 → s.mem (t + 8 * i) ≡ 0)
    → entry_from l t v s ≡ 0
entry_from-empty zero t v s a h z = entry_from-zero t v s a h ∙ z (index v 1) (index-lt v 1)
entry_from-empty (suc l) t v s a h z =
    entry_from-absent l t v s a h (rw (z (index v (l + 2)) (index-lt v (l + 2))) zero_absent)
