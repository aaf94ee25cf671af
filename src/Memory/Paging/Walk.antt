-- ===== src/Memory/Paging/Walk.antt =====
-- The walk of map_page: with a free frame for each level it reaches a lowest table, adds the tables
-- that are missing, and loses no lookup.
mod Descend
unfoldable pub use Descend.*
use dos_kernel.Common.{
  ℕ, zero, suc, ◌+◌, ◌*◌, ◌/◌, ◌%◌, ◌^◌, ◌≤◌, ◌<◌, ◌≡◌, ◌≢◌, refl, sym, ap, ap₂, ◌∙◌, arith, true,
  false, none, some, List, [], ◌∷◌, length, ==_refl, Bool-cases, inl, inr, ok, Run, bit_or, bit_and,
}
use dos_kernel.Memory.Machine.{Machine, phys_virt}
use dos_kernel.Memory.Frame.FreeList.{
  IsFreeList, has, frame_alloc-Allocated, frame, phys_virt_inj, has_ne,
}
use dos_kernel.Memory.Frame.Taken.{Within}
use dos_kernel.Memory.Paging.{
  index, slot, present, child_at, find, new_table, descend, walk, intermediate_flags,
  entry_4k_address_mask,
}
use dos_kernel.Memory.Paging.Entries.{index-lt, slot_lem, new_entry}
use dos_kernel.Memory.Paging.Tree.{
  Owner, Tables, Apart, Extends, Extends-refl, Extends-trans, Confined, Confined-refl,
  Confined-trans,
}
use dos_kernel.Memory.Paging.Grow.{
  Growth, grown, grown_other, own', grow-Extends, grow-Tables, link, not_new,
}

-- The prefix of the lowest table on the way of `v` from a table with prefix `p`.
unfoldable pub leaf_prefix : ℕ → ℕ → ℕ → ℕ
leaf_prefix zero p v = p
leaf_prefix (suc l) p v = leaf_prefix l (p * 512 + index v (l + 2)) v

-- The walk ended at the lowest table `leaf`, which is the one that a lookup of `v` now finds.
pub record Walked (own : Owner) (s : Machine) (ps : List ℕ) (t₀ l p v : ℕ) (r : Run Machine ℕ)
    : Type 0 where
  pub after : Machine
  pub owner : Owner
  pub leaf : ℕ
  pub spare : List ℕ
  pub runs : r ≡ ok leaf after
  pub ready : Ready owner after spare
  pub extends : Extends own s owner after
  pub owned : owner leaf ≡ some (0, leaf_prefix l p v)
  pub found : find l t₀ v after ≡ some leaf
  pub used : length ps ≤ l + length spare
  pub within : Within spare ps
  pub confined : Confined own s ps owner after spare

pub find_step :
    (l t v : ℕ) (s : Machine)
    → slot t (index v (l + 2)) ≡ t + 8 * index v (l + 2)
    → present (s.mem (t + 8 * index v (l + 2))) ≡ true
    → find (suc l) t v s ≡ find l (child_at s.offset (s.mem (t + 8 * index v (l + 2)))) v s
unfolding find
find_step l t v s at there = ground (arith, at)

-- The walk loses no lookup and finds a lowest table for its address, given a frame for each level.
pub walk-Walked :
    (l : ℕ) {own : Owner} {s : Machine} {ps : List ℕ} (t₀ p v flags : ℕ)
    → Ready own s ps
    → l ≤ length ps
    → own t₀ ≡ some (l, p)
    → Walked own s ps t₀ l p v (walk l t₀ v flags s)
unfolding walk find leaf_prefix
walk-Walked zero {own} {s} {ps} t₀ p v flags ready enough at = record {
  after = s;
  owner = own;
  leaf = t₀;
  spare = ps;
  runs = refl;
  ready = ready;
  extends = Extends-refl own s;
  owned = at;
  found = refl;
  used = omega arith;
  within = λ q h. h;
  confined = Confined-refl own s ps;
}
walk-Walked (suc l) {own} {s} {ps} t₀ p v flags ready enough at =
    let i = index v (l + 2) in
    let d = descend_lem ps t₀ l p v flags ready (omega arith) at in
    let w = walk-Walked l d.c (p * 512 + i) v flags d.ready (omega (arith, d.used)) d.owned in
    let (a, h) = ready.tables.aligned t₀ at in
    let kept : w.after.mem (t₀ + 8 * i) ≡ d.after.mem (t₀ + 8 * i) =
      w.extends.entries t₀ i (d.extends.keeps t₀ at) (index-lt v (l + 2)) d.there in
    let to_c : child_at w.after.offset (w.after.mem (t₀ + 8 * i)) ≡ d.c =
      ap₂ child_at w.extends.window kept ∙ d.leads in
    record {
      after = w.after;
      owner = w.owner;
      leaf = w.leaf;
      spare = w.spare;
      runs = rw d.runs w.runs;
      ready = w.ready;
      extends = Extends-trans d.extends w.extends;
      owned = w.owned;
      used = omega (arith, d.used, w.used);
      within = λ q h. d.within q (w.within q h);
      confined = Confined-trans d.confined w.confined;
      found =
          let there : present (w.after.mem (t₀ + 8 * i)) ≡ true = ap present kept ∙ d.there in
          let at = slot_lem t₀ i a h (index-lt v (l + 2)) in
          find_step l t₀ v w.after at there ∙ ap (λ (x : ℕ). find l x v w.after) to_c ∙ w.found;
    }
