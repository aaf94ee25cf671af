-- ===== src/Memory/Paging/Identity.antt =====
-- paging_init: the first four megabytes are mapped to themselves.
use dos_kernel.Common.{
  ℕ, zero, suc, ◌+◌, ◌*◌, ◌^◌, ◌≤◌, ◌<◌, ◌≡◌, refl, ap, subst, arith, some, List, length,
}
use dos_kernel.Memory.Machine.{Machine}
use dos_kernel.Memory.Paging.{child_at, identity_loop, leaf_entry, map_page, paging_init}
use dos_kernel.Memory.Paging.Tree.{Owner}
use dos_kernel.Memory.Paging.Walk.{Ready}
use dos_kernel.Memory.Paging.Range.{Maps, Maps-nil, Maps-cons, Maps-same, mapped}
use dos_kernel.Memory.Paging.Map.{Sets, map_page-Sets}

identity_loop-Maps :
    (n addr : ℕ) (own : Owner) (s : Machine) (ps : List ℕ) (root : ℕ)
    → Ready own s ps
    → own root ≡ some (3, 0)
    → 3 * n ≤ length ps
    → n < 2 ^ 36
    → Maps own ps root n addr (mapped addr 3) s (identity_loop n root addr s)
unfolding identity_loop
identity_loop-Maps zero addr own s ps root ready o enough few =
    Maps-nil root addr (mapped addr 3) ready o
identity_loop-Maps (suc n) addr own s ps root ready o enough few =
    let at : addr ≡ addr + 0 * 4096 = omega arith in
    let first : Sets own ps root addr (mapped addr 3 0) s (map_page root addr addr 3 s) =
      subst (λ x. Sets own ps root addr (leaf_entry x 3) s (map_page root addr addr 3 s)) at
        (map_page-Sets own s ps root addr addr 3 ready o (omega arith)) in
    let rest =
      identity_loop-Maps n (addr + 4096) first.owner first.after first.spare root first.ready
        first.root_owned (omega (arith, first.used)) (omega arith) in
    Maps-cons n (mapped addr 3) first (omega arith) (identity_loop n root (addr + 4096))
      (Maps-same (addr + 4096) refl (λ i. ap (λ x. leaf_entry x 3) (omega arith)) rest)

-- The state in which paging_init maps the pages.
abbrev pub rooted : ℕ → Machine → Machine
rooted root s = record s { kernel_pml4 = root }

-- paging_init takes the table in cr3 as the kernel's, and maps each of the first 1024 pages to itself, with three
-- free frames for each page.
pub paging_init-Maps :
    (own : Owner) (s : Machine) (ps : List ℕ) (root : ℕ)
    → child_at 0xFFFF800000000000 s.cr3 ≡ root
    → Ready own s ps
    → own root ≡ some (3, 0)
    → 3 * 1024 ≤ length ps
    → Maps own ps root 1024 0 (mapped 0 3) (rooted root s) (paging_init s)
unfolding paging_init
paging_init-Maps own s ps root e ready o enough = rw e (
    identity_loop-Maps 1024 0 own (rooted root s) ps root
      (record {
        tables = record { aligned = ready.tables.aligned; child = ready.tables.child };
        apart = record {
          window = ready.apart.window;
          free = ready.apart.free;
          pages = ready.apart.pages;
        };
      })
      o enough (omega arith))
