-- ===== src/Memory/Paging/Map.antt =====
-- map_page, unmap_page and paging_get_entry as operations on a map from virtual pages to entries.
use dos_kernel.Common.{
  ℕ, ◌+◌, ◌*◌, ◌≤◌, ◌≡◌, ◌≢◌, refl, sym, ap, ap₂, ◌∙◌, arith, none, some, List, length, ==_refl,
  Option-cases, inl, inr, ok, Run,
}
use dos_kernel.Memory.Machine.{Machine}
use dos_kernel.Memory.Frame.Taken.{Within}
use dos_kernel.Memory.Paging.{index, slot, find, entry_from, map_page, unmap_page, leaf_entry}
use dos_kernel.Memory.Paging.Entries.{index-lt, index_levels, slot_lem}
use dos_kernel.Memory.Paging.Tree.{Owner, Confined, Confined-refl, Confined-trans}
use dos_kernel.Memory.Paging.Walk.{Ready, leaf_prefix, walk-Walked}
use dos_kernel.Memory.Paging.Grow.{same_word}
use dos_kernel.Memory.Paging.Leaf.{
  page, page_parts, find_owned, written, find_kept, written-Ready, written-Confined,
}

-- A run that sets the entry of the page of `v` to `e` and keeps the entries of all other pages, and
-- leaves the tables under `root` and the spare frames in order. It takes three of the spare frames `ps` at
-- most, and writes to the tables and these frames alone.
pub record Sets (own : Owner) (ps : List ℕ) (root v e : ℕ) (s : Machine)
    (r : Run Machine (Unit {0})) : Type 0 where
  pub after : Machine
  pub owner : Owner
  pub spare : List ℕ
  pub runs : r ≡ ok tt after
  pub ready : Ready owner after spare
  pub root_owned : owner root ≡ some (3, 0)
  pub window : after.offset ≡ s.offset
  pub used : length ps ≤ 3 + length spare
  pub within : Within spare ps
  pub confined : Confined own s ps owner after spare
  pub here : (w : ℕ) → page w ≡ page v → entry_from 3 root w after ≡ e
  pub elsewhere : (w : ℕ) → page w ≢ page v → entry_from 3 root w after ≡ entry_from 3 root w s

pub entry_of_leaf :
    (l t v u : ℕ) (s : Machine)
    → find l t v s ≡ some u
    → entry_from l t v s ≡ s.mem (slot u (index v 1))
unfolding entry_from
entry_of_leaf l t v u s e = rw (e, entry_from) refl

pub entry_of_none : (l t v : ℕ) (s : Machine) → find l t v s ≡ none → entry_from l t v s ≡ 0
unfolding entry_from
entry_of_none l t v s e = rw (e, entry_from) refl

-- Two addresses of one page take the same way.
same_path :
    (v w : ℕ)
    → page w ≡ page v
    → (index w 1 ≡ index v 1)
      × (index w 2 ≡ index v 2)
      × (index w 3 ≡ index v 3)
      × (index w 4 ≡ index v 4)
same_path v w e = omega (arith, index_levels v, index_levels w)

same_find : (t v w : ℕ) (s : Machine) → page w ≡ page v → find 3 t w s ≡ find 3 t v s
unfolding find
same_find t v w s e = let (a, b, c, d) = same_path v w e in rw (b, c, d, find) refl

module _ {own : Owner} {s : Machine} {ps : List ℕ} (ready : Ready own s ps) (root v leaf e : ℕ)
    (o : own root ≡ some (3, 0)) (found : find 3 root v s ≡ some leaf) where
  abbrev leaf_owned : own leaf ≡ some (0, leaf_prefix 3 0 v)
  leaf_owned = find_owned 3 root 0 v leaf ready.tables o found

  abbrev next : Machine
  next = written ready.tables leaf (leaf_prefix 3 0 v) (index v 1) e leaf_owned (index-lt v 1)

  same_lookup : (w : ℕ) → find 3 root w next ≡ find 3 root w s
  same_lookup w =
      find_kept ready.tables leaf (leaf_prefix 3 0 v) (index v 1) e leaf_owned (index-lt v 1) 3 root
        0 w o

  at_here : (w : ℕ) → page w ≡ page v → entry_from 3 root w next ≡ e
  at_here w eq =
      let (al, hl) = ready.tables.aligned leaf leaf_owned in
      let f = same_lookup w ∙ same_find root v w s eq ∙ found in
      entry_of_leaf 3 root w leaf next f
      ∙ rw (slot_lem leaf (index w 1) al hl (index-lt w 1), (same_path v w eq).0, ==_refl) refl

  at_elsewhere : (w : ℕ) → page w ≢ page v → entry_from 3 root w next ≡ entry_from 3 root w s
  at_elsewhere w ne = elim (Option-cases (find 3 root w s)) [
    | inl missing ↦
        entry_of_none 3 root w next (same_lookup w ∙ missing)
        ∙ sym (entry_of_none 3 root w s missing)
    | inr (u, got) ↦
        let u_owned = find_owned 3 root 0 w u ready.tables o got in
        let (au, hu) = ready.tables.aligned u u_owned in
        let (al, hl) = ready.tables.aligned leaf leaf_owned in
        let other : ¬ ((u ≡ leaf) × (index w 1 ≡ index v 1)) = λ (eq, ei).
          let same : leaf_prefix 3 0 w ≡ leaf_prefix 3 0 v = cc (ap own eq, u_owned, leaf_owned) in
          ne (sym (page_parts w) ∙ ap₂ (λ (x y : ℕ). x * 512 + y) same ei ∙ page_parts v) in
        entry_of_leaf 3 root w u next (same_lookup w ∙ got)
        ∙ rw (slot_lem u (index w 1) au hu (index-lt w 1))
            (ground (arith, same_word u leaf (index w 1) (index v 1), index-lt w 1, index-lt v 1))
        ∙ sym (entry_of_leaf 3 root w u s got)
  ]

-- map_page sets the entry of its page to the frame with its flags and keeps what every other page is
-- mapped to, from a tree of tables with three frames to spare.
pub map_page-Sets :
    (own : Owner) (s : Machine) (ps : List ℕ) (root vaddr paddr flags : ℕ)
    → Ready own s ps
    → own root ≡ some (3, 0)
    → 3 ≤ length ps
    → Sets own ps root vaddr (leaf_entry paddr flags) s (map_page root vaddr paddr flags s)
unfolding map_page
map_page-Sets own s ps root vaddr paddr flags ready o enough =
    let w = walk-Walked 3 root 0 vaddr flags ready enough o in
    let e = leaf_entry paddr flags in
    let still = w.extends.keeps root o in
    let (al, hl) = w.ready.tables.aligned w.leaf w.owned in
    record {
      after = next w.ready root vaddr w.leaf e still w.found;
      owner = w.owner;
      spare = w.spare;
      runs = rw (w.runs, slot_lem w.leaf (index vaddr 1) al hl (index-lt vaddr 1)) refl;
      ready =
          written-Ready w.ready.tables w.leaf (leaf_prefix 3 0 vaddr) (index vaddr 1) e
            (leaf_owned w.ready root vaddr w.leaf e still w.found) (index-lt vaddr 1) w.spare
            w.ready;
      root_owned = still;
      window = w.extends.window;
      used = w.used;
      within = w.within;
      confined = Confined-trans w.confined (
          written-Confined w.ready.tables w.leaf (leaf_prefix 3 0 vaddr) (index vaddr 1) e
            (leaf_owned w.ready root vaddr w.leaf e still w.found) (index-lt vaddr 1) w.spare);
      here = at_here w.ready root vaddr w.leaf e still w.found;
      elsewhere = λ x ne.
          at_elsewhere w.ready root vaddr w.leaf e still w.found x ne
          ∙ w.extends.lookups 3 root 0 x o;
    }

-- unmap_page clears the entry of its page, if there is one, and keeps what every other page is mapped
-- to; afterwards paging_get_entry finds 0 there.
pub unmap_page-Sets :
    (own : Owner) (s : Machine) (ps : List ℕ) (root vaddr : ℕ)
    → Ready own s ps
    → own root ≡ some (3, 0)
    → Sets own ps root vaddr 0 s (unmap_page root vaddr s)
unfolding unmap_page
unmap_page-Sets own s ps root vaddr ready o = elim (Option-cases (find 3 root vaddr s)) [
  | inl missing ↦ record {
    after = s;
    owner = own;
    spare = ps;
    runs = rw (missing, unmap_page) refl;
    ready = ready;
    root_owned = o;
    window = refl;
    used = omega arith;
    within = λ q h. h;
    confined = Confined-refl own s ps;
    here = λ w eq. entry_of_none 3 root w s (same_find root vaddr w s eq ∙ missing);
    elsewhere = λ w ne. refl;
  }
  | inr (leaf, found) ↦
      let is_leaf = leaf_owned ready root vaddr leaf 0 o found in
      let (al, hl) = ready.tables.aligned leaf is_leaf in
      record {
        after = next ready root vaddr leaf 0 o found;
        owner = own;
        spare = ps;
        runs =
            rw (found, unmap_page)
              (rw (slot_lem leaf (index vaddr 1) al hl (index-lt vaddr 1)) refl);
        ready =
            written-Ready ready.tables leaf (leaf_prefix 3 0 vaddr) (index vaddr 1) 0 is_leaf
              (index-lt vaddr 1) ps ready;
        root_owned = o;
        window = refl;
        used = omega arith;
        within = λ q h. h;
        confined =
            written-Confined ready.tables leaf (leaf_prefix 3 0 vaddr) (index vaddr 1) 0 is_leaf
              (index-lt vaddr 1) ps;
        here = at_here ready root vaddr leaf 0 o found;
        elsewhere = at_elsewhere ready root vaddr leaf 0 o found;
      }
]
