-- ===== src/Memory/Paging/Range/Loops.antt =====
-- The loops of paging_map_page and paging_unmap_page.
use dos_kernel.Common.{
  ℕ, zero, suc, ◌+◌, ◌-◌, ◌*◌, ◌^◌, ◌≤◌, ◌<◌, ◌≡◌, ◌≢◌, refl, sym, ap, ◌∙◌, arith, true, false,
  some, List, length, ltb, u64, ok, Run, Cmd, and_then,
}
use dos_kernel.Memory.Machine.{Machine}
use dos_kernel.Memory.Frame.Taken.{Within}
use dos_kernel.Memory.Paging.{entry_from, leaf_entry, map_loop, unmap_loop}
use dos_kernel.Memory.Paging.Tree.{Owner, Confined, Confined-refl, Confined-trans}
use dos_kernel.Memory.Paging.Walk.{Ready}
use dos_kernel.Memory.Paging.Leaf.{page}
use dos_kernel.Memory.Paging.Map.{Sets, map_page-Sets, unmap_page-Sets}

-- The page of `w` is one of the `n` pages from `v` on.
abbrev pub Covers : ℕ → ℕ → ℕ → Type 0
Covers v n w = (i : ℕ) × (i < n) × (page w ≡ page (v + i * 4096))

-- A run that sets the entries of the `n` pages from `v` on to `e 0`, `e 1` and so on, and keeps those of all
-- other pages; three spare frames for each page are enough for it.
pub record Maps (own : Owner) (ps : List ℕ) (root n v : ℕ) (e : ℕ → ℕ) (s : Machine)
    (r : Run Machine (Unit {0})) : Type 0 where
  pub after : Machine
  pub owner : Owner
  pub spare : List ℕ
  pub runs : r ≡ ok tt after
  pub ready : Ready owner after spare
  pub root_owned : owner root ≡ some (3, 0)
  pub used : length ps ≤ 3 * n + length spare
  pub within : Within spare ps
  pub confined : Confined own s ps owner after spare
  pub here : (i w : ℕ) → i < n → page w ≡ page (v + i * 4096) → entry_from 3 root w after ≡ e i
  pub elsewhere : (w : ℕ) → ¬ Covers v n w → entry_from 3 root w after ≡ entry_from 3 root w s

pub pages_apart : (v i : ℕ) → i < 2 ^ 36 - 1 → page v ≢ page (v + 4096 + i * 4096)
pages_apart v i h = omega arith

pub Maps-nil :
    {own : Owner} {ps : List ℕ} (root v : ℕ) (e : ℕ → ℕ) {s : Machine}
    → Ready own s ps
    → own root ≡ some (3, 0)
    → Maps own ps root 0 v e s (ok tt s)
Maps-nil {own} {ps} root v e {s} ready o = record {
  after = s;
  owner = own;
  spare = ps;
  runs = refl;
  ready = ready;
  root_owned = o;
  used = omega arith;
  within = λ q h. h;
  confined = Confined-refl own s ps;
  here = λ i w h. absurd (omega arith);
  elsewhere = λ w out. refl;
}

module _ {own : Owner} {ps : List ℕ} {root v : ℕ} (n : ℕ) (e : ℕ → ℕ) {s : Machine}
    {r : Run Machine (Unit {0})} (first : Sets own ps root v (e 0) s r) (few : n < 2 ^ 36) where
  pub Maps-cons :
      (k : Cmd Machine (Unit {0}))
      → Maps first.owner first.spare root n (v + 4096) (λ i. e (suc i)) first.after (k first.after)
      → Maps own ps root (suc n) v e s (and_then r (λ _. k))
  Maps-cons k more = record {
    after = more.after;
    owner = more.owner;
    spare = more.spare;
    runs = rw first.runs more.runs;
    ready = more.ready;
    root_owned = more.root_owned;
    used = omega (arith, first.used, more.used);
    within = λ q h. first.within q (more.within q h);
    confined = Confined-trans first.confined more.confined;
    here = λ i w h eq. at i w h eq;
    elsewhere = λ w out.
        more.elsewhere w (λ (i, h, eq). out (suc i, omega arith, eq ∙ ap page (omega arith)))
        ∙ first.elsewhere w (λ eq. out (0, omega arith, eq ∙ ap page (omega arith)));
  }
    where
      at :
          (i w : ℕ)
          → i < suc n
          → page w ≡ page (v + i * 4096)
          → entry_from 3 root w more.after ≡ e i
      at zero w h eq =
          let here : page w ≡ page v = eq ∙ ap page (omega arith) in
          more.elsewhere w (λ (j, hj, eq'). pages_apart v j (omega arith) (sym here ∙ eq'))
          ∙ first.here w here
      at (suc i) w h eq = more.here i w (omega arith) (eq ∙ ap page (omega arith))

pub Maps-same :
    {own : Owner} {ps : List ℕ} {root n v : ℕ} (v' : ℕ) {e e' : ℕ → ℕ} {s : Machine}
    {r : Run Machine (Unit {0})}
    → v ≡ v'
    → ((i : ℕ) → e i ≡ e' i)
    → Maps own ps root n v e s r
    → Maps own ps root n v' e' s r
Maps-same v' eq same m = rw (← eq) (record {
  after = m.after;
  owner = m.owner;
  spare = m.spare;
  runs = m.runs;
  ready = m.ready;
  root_owned = m.root_owned;
  used = m.used;
  within = m.within;
  confined = m.confined;
  here = λ i w h q. m.here i w h q ∙ same i;
  elsewhere = m.elsewhere;
})

-- The entries that paging_map_page writes.
abbrev pub mapped : ℕ → ℕ → ℕ → ℕ
mapped paddr flags i = leaf_entry (paddr + i * 4096) flags

pub map_loop-Maps :
    (n k vaddr paddr length' flags : ℕ) (own : Owner) (s : Machine) (ps : List ℕ) (root : ℕ)
    → Ready own s ps
    → own root ≡ some (3, 0)
    → 3 * n ≤ length ps
    → (k + n) * 4096 ≡ length'
    → length' < 2 ^ 64
    → vaddr + length' ≤ 2 ^ 64
    → paddr + length' ≤ 2 ^ 64
    → n < 2 ^ 36
    → Maps own ps root n
        (vaddr + k * 4096)
        (mapped (paddr + k * 4096) flags)
        s
        (map_loop (suc n) root vaddr paddr length' flags (k * 4096) s)
unfolding map_loop
map_loop-Maps zero k vaddr paddr length' flags own s ps root ready o enough e hl hv hp few =
    let stop : ltb (k * 4096) length' ≡ false = ground arith in
    rw stop (Maps-nil root (vaddr + k * 4096) (mapped (paddr + k * 4096) flags) ready o)
map_loop-Maps (suc n) k vaddr paddr length' flags own s ps root ready o enough e hl hv hp few =
    let go : ltb (k * 4096) length' ≡ true = ground arith in
    let v : u64 (vaddr + k * 4096) ≡ vaddr + k * 4096 = omega arith in
    let p : u64 (paddr + k * 4096) ≡ paddr + k * 4096 + 0 * 4096 = omega arith in
    let next : u64 (k * 4096 + 0x1000) ≡ (k + 1) * 4096 = omega arith in
    let v' : vaddr + k * 4096 + 4096 ≡ vaddr + (k + 1) * 4096 = omega arith in
    let first =
      map_page-Sets own s ps root (vaddr + k * 4096) (paddr + k * 4096 + 0 * 4096) flags ready o
        (omega arith) in
    let rest =
      map_loop-Maps n (k + 1) vaddr paddr length' flags first.owner first.after first.spare root
        first.ready first.root_owned (omega (arith, first.used)) (omega arith) hl hv hp
        (omega arith) in
    rw (go, v, p, next)
      (Maps-cons n (mapped (paddr + k * 4096) flags) first (omega arith)
        (map_loop (suc n) root vaddr paddr length' flags ((k + 1) * 4096))
        (Maps-same (vaddr + k * 4096 + 4096) (omega arith)
          (λ i. ap (λ x. leaf_entry x flags) (omega arith)) rest))

pub unmap_loop-Maps :
    (n k vaddr length' : ℕ) (own : Owner) (s : Machine) (ps : List ℕ) (root : ℕ)
    → Ready own s ps
    → own root ≡ some (3, 0)
    → (k + n) * 4096 ≡ length'
    → length' < 2 ^ 64
    → vaddr + length' ≤ 2 ^ 64
    → n < 2 ^ 36
    → Maps own ps root n
        (vaddr + k * 4096)
        (λ i. 0)
        s
        (unmap_loop (suc n) root vaddr length' (k * 4096) s)
unfolding unmap_loop
unmap_loop-Maps zero k vaddr length' own s ps root ready o e hl hv few =
    let stop : ltb (k * 4096) length' ≡ false = ground arith in
    rw stop (Maps-nil root (vaddr + k * 4096) (λ i. 0) ready o)
unmap_loop-Maps (suc n) k vaddr length' own s ps root ready o e hl hv few =
    let go : ltb (k * 4096) length' ≡ true = ground arith in
    let v : u64 (vaddr + k * 4096) ≡ vaddr + k * 4096 = omega arith in
    let next : u64 (k * 4096 + 0x1000) ≡ (k + 1) * 4096 = omega arith in
    let first = unmap_page-Sets own s ps root (vaddr + k * 4096) ready o in
    let rest =
      unmap_loop-Maps n (k + 1) vaddr length' first.owner first.after first.spare root first.ready
        first.root_owned (omega arith) hl hv (omega arith) in
    rw (go, v, next)
      (Maps-cons n (λ i. 0) first (omega arith)
        (unmap_loop (suc n) root vaddr length' ((k + 1) * 4096))
        (Maps-same (vaddr + k * 4096 + 4096) (omega arith) (λ i. refl) rest))
