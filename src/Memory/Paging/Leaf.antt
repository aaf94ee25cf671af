-- ===== src/Memory/Paging/Leaf.antt =====
-- A write to a lowest table: it changes what is found for one page, and nothing else.
use dos_kernel.Common.{
  ℕ, zero, suc, ◌+◌, ◌*◌, ◌/◌, ◌%◌, ◌^◌, ◌<◌, ◌≡◌, ◌≢◌, refl, sym, ap, ◌∙◌, arith, false, none,
  some, List, Bool-cases, inl, inr,
}
use dos_kernel.Memory.Machine.{Machine, phys_virt, write}
use dos_kernel.Memory.Frame.FreeList.{frame}
use dos_kernel.Memory.Paging.{index, slot, present, child_at, find}
use dos_kernel.Memory.Paging.Entries.{index-lt, index_levels, slot_lem}
use dos_kernel.Memory.Paging.Tree.{Owner, Tables, Apart, Confined}
use dos_kernel.Memory.Paging.Grow.{same_word}
use dos_kernel.Memory.Paging.Walk.{Ready, leaf_prefix, find_step, phys_virt-aligned}

-- The number of a virtual page within the 48 bits that are translated.
abbrev pub page : ℕ → ℕ
page v = v / 2 ^ 12 % 2 ^ 36

pub page_parts : (v : ℕ) → leaf_prefix 3 0 v * 512 + index v 1 ≡ page v
unfolding leaf_prefix
page_parts v = omega (arith, index_levels v)

pub find_absent :
    (l t v : ℕ) (s : Machine)
    → slot t (index v (l + 2)) ≡ t + 8 * index v (l + 2)
    → present (s.mem (t + 8 * index v (l + 2))) ≡ false
    → find (suc l) t v s ≡ none
unfolding find
find_absent l t v s at gone = ground (arith, at)

find-zero :
    (own : Owner) (t p v u : ℕ) (s : Machine)
    → own t ≡ some (0, p)
    → find zero t v s ≡ some u
    → own u ≡ some (0, p)
unfolding find
find-zero own t p v u s o e = let eq : t ≡ u = cc in cc (ap own eq, o)

-- What a lookup ends in is a lowest table, with the prefix of its address.
pub find_owned :
    (l : ℕ) {own : Owner} {s : Machine} (t p v u : ℕ)
    → Tables own s
    → own t ≡ some (l, p)
    → find l t v s ≡ some u
    → own u ≡ some (0, leaf_prefix l p v)
unfolding leaf_prefix
find_owned zero {own} {s} t p v u tables o e = find-zero own t p v u s o e
find_owned (suc l) {own} {s} t p v u tables o e =
    let (a, h) = tables.aligned t o in
    let i = index v (l + 2) in
    let small = index-lt v (l + 2) in
    let at = slot_lem t i a h small in
    elim (Bool-cases (present (s.mem (t + 8 * i)))) [
      | inl there ↦
          find_owned l (child_at s.offset (s.mem (t + 8 * i))) (p * 512 + i) v u tables
            (tables.child t l p i o small there) (sym (find_step l t v s at there) ∙ e)
      | inr gone ↦ cc (find_absent l t v s at gone, e)
    ]

-- `e` is written to slot `i` of the lowest table `leaf`.
module _ {own : Owner} {s : Machine} (tables : Tables own s) (leaf q i e : ℕ)
    (is_leaf : own leaf ≡ some (0, q)) (hi : i < 512) where
  abbrev pub written : Machine
  written = record s { mem = write s.mem (leaf + 8 * i) e }

  pub kept :
      (t j l p : ℕ)
      → own t ≡ some (suc l, p)
      → j < 512
      → written.mem (t + 8 * j) ≡ s.mem (t + 8 * j)
  kept t j l p o h =
      let (at, ht) = tables.aligned t o in
      let (al, hl) = tables.aligned leaf is_leaf in
      let ne : t ≢ leaf = λ eq. cc (ap own eq, o, is_leaf) in ground (arith, same_word t leaf j i)

  pub find_kept : (l t p v : ℕ) → own t ≡ some (l, p) → find l t v written ≡ find l t v s
  find_kept zero t p v o = unfold find in refl
  find_kept (suc l) t p v o =
      let (a, h) = tables.aligned t o in
      let j = index v (l + 2) in
      let small = index-lt v (l + 2) in
      let at = slot_lem t j a h small in
      let same = kept t j l p o small in
      elim (Bool-cases (present (s.mem (t + 8 * j)))) [
        | inl there ↦
            find_step l t v written at (ap present same ∙ there)
            ∙ ap (λ (x : ℕ). find l (child_at s.offset x) v written) same
            ∙ find_kept l (child_at s.offset (s.mem (t + 8 * j))) (p * 512 + j) v
                (tables.child t l p j o small there)
            ∙ sym (find_step l t v s at there)
        | inr gone ↦
            find_absent l t v written at (ap present same ∙ gone)
            ∙ sym (find_absent l t v s at gone)
      ]

  written-Tables : Tables own written
  written-Tables = record {
    aligned = tables.aligned;
    child = λ t l p j o h there.
        let same = kept t j l p o h in
        ap (λ (x : ℕ). own (child_at s.offset x)) same
        ∙ tables.child t l p j o h (ap present (sym same) ∙ there);
  }

  written-Apart : (ps : List ℕ) → Apart own s ps → Apart own written ps
  written-Apart ps apart = record {
    window = apart.window;
    free = frame apart.free λ a h lt.
        let (pa, la, un) = apart.pages a h in
        let (au, lu) = phys_virt-aligned s.offset a apart.window.0 pa in
        let (al, hl) = tables.aligned leaf is_leaf in
        let ne : phys_virt s.offset a ≢ leaf = λ eq. cc (ap own eq, un, is_leaf) in
        ground (arith, same_word (phys_virt s.offset a) leaf 0 i);
    pages = apart.pages;
  }

  pub written-Ready : (ps : List ℕ) → Ready own s ps → Ready own written ps
  written-Ready ps r = record { tables = written-Tables; apart = written-Apart ps r.apart }

  pub written-Confined : (ps : List ℕ) → Confined own s ps own written ps
  written-Confined ps = record {
    word = λ a spared.
        let (al, hl) = tables.aligned leaf is_leaf in
        let ne : leaf ≢ a / 4096 * 4096 = λ eq. cc (ap own eq, is_leaf, spared.no_table) in
        (spared, ground arith);
    rest = refl;
  }
