-- ===== src/Memory/Paging/Create.antt =====
-- paging_create_pml4: a new root table shares the upper half of the kernel's.
use dos_kernel.Common.{
  ℕ, zero, suc, ◌+◌, ◌*◌, ◌/◌, ◌%◌, ◌^◌, ◌≤◌, ◌<◌, ◌≡◌, ◌≢◌, refl, ◌∙◌, arith, false, List, ◌∷◌,
  ◌==◌, Bool-cases, inl, inr, ok,
}
use dos_kernel.Memory.Machine.{Machine, Memory, phys_virt, write, clear}
use dos_kernel.Memory.Frame.FreeList.{has, HasFree, IsFreeList, frame_alloc-Allocated}
use dos_kernel.Memory.Paging.{slot, copy_upper, paging_create_pml4}
use dos_kernel.Memory.Paging.Entries.{slot_lem}

-- The copy of the entries from `i` on, `rounds` of them.
record Copied (pml4 kernel rounds i : ℕ) (m g : Memory) : Type 0 where
  entries : (j : ℕ) → i ≤ j → j < i + rounds → g (pml4 + 8 * j) ≡ m (kernel + 8 * j)
  others : (b : ℕ) → ((j : ℕ) → i ≤ j → j < i + rounds → b ≢ pml4 + 8 * j) → g b ≡ m b

copy_step :
    (rounds pml4 i : ℕ) (s : Machine)
    → slot s.kernel_pml4 i ≡ s.kernel_pml4 + 8 * i
    → slot pml4 i ≡ pml4 + 8 * i
    → copy_upper (suc rounds) pml4 i s
      ≡ copy_upper rounds pml4
          (i + 1)
          (record s { mem = write s.mem (pml4 + 8 * i) (s.mem (s.kernel_pml4 + 8 * i)) })
unfolding copy_upper
copy_step rounds pml4 i s from to = rw (from, to) refl

copy_upper-Copied :
    (rounds pml4 i : ℕ) (s : Machine)
    → pml4 % 4096 ≡ 0
    → pml4 < 2 ^ 64
    → s.kernel_pml4 % 4096 ≡ 0
    → s.kernel_pml4 < 2 ^ 64
    → s.kernel_pml4 ≢ pml4
    → i + rounds ≤ 512
    → (g : Memory) × (copy_upper rounds pml4 i s ≡ ok tt (record s { mem = g }))
      × Copied pml4 s.kernel_pml4 rounds i s.mem g
copy_upper-Copied zero pml4 i s ha hs ka ks ne h = (
  s.mem,
  unfold copy_upper in refl,
  record { entries = λ j l u. absurd (omega arith); others = λ b out. refl },
)
copy_upper-Copied (suc rounds) pml4 i s ha hs ka ks ne h =
    let from = slot_lem s.kernel_pml4 i ka ks (omega arith) in
    let to = slot_lem pml4 i ha hs (omega arith) in
    let m = write s.mem (pml4 + 8 * i) (s.mem (s.kernel_pml4 + 8 * i)) in
    let (g, runs, c) =
      copy_upper-Copied rounds pml4 (i + 1) (record s { mem = m }) ha hs ka ks ne (omega arith) in
    (g, copy_step rounds pml4 i s from to ∙ runs, copied g c)
  where
    copied :
        (g : Memory)
        → Copied pml4 s.kernel_pml4 rounds
            (i + 1)
            (write s.mem (pml4 + 8 * i) (s.mem (s.kernel_pml4 + 8 * i)))
            g
        → Copied pml4 s.kernel_pml4 (suc rounds) i s.mem g
    copied g c = record {
      entries = λ j l u. elim (Bool-cases (j == i)) [
        | inl first ↦
            let e : j ≡ i = ground arith in
            rw e (c.others (pml4 + 8 * i) (λ k l u e. absurd (omega arith)) ∙ ground arith)
        | inr later ↦ c.entries j (ground arith) (omega arith) ∙ ground arith
      ];
      others = λ b out.
          let first = out i (omega arith) (omega arith) in
          c.others b (λ j l u. out j (omega arith) (omega arith)) ∙ ground arith;
    }

-- The pages after paging_create_pml4: the new root holds the upper half of the kernel's and nothing else.
pub record Created (s : Machine) (f : ℕ) (ps : List ℕ) : Type 0 where
  pub mem : Memory
  pub next : ℕ
  pub runs :
      paging_create_pml4 s ≡ ok (phys_virt s.offset f) (record s { mem = mem; page_list = next })
  pub lower : (j : ℕ) → j < 256 → mem (phys_virt s.offset f + 8 * j) ≡ 0
  pub upper :
      (j : ℕ)
      → 256 ≤ j
      → j < 512
      → mem (phys_virt s.offset f + 8 * j) ≡ s.mem (s.kernel_pml4 + 8 * j)
  pub others : (b : ℕ) → b / 4096 * 4096 ≢ phys_virt s.offset f → mem b ≡ s.mem b
  pub free : IsFreeList s.offset s.mem next ps
  pub in_range : f < 2 ^ 64
  pub distinct : has f ps ≡ false

pub paging_create_pml4-Created :
    (s : Machine) (f : ℕ) (ps : List ℕ)
    → HasFree s (f ∷ ps)
    → phys_virt s.offset f % 4096 ≡ 0
    → s.kernel_pml4 % 4096 ≡ 0
    → s.kernel_pml4 < 2 ^ 64
    → s.kernel_pml4 ≢ phys_virt s.offset f
    → Created s f ps
unfolding paging_create_pml4 phys_virt
paging_create_pml4-Created s f ps free whole ka ks ne =
    let (next, eq, rest, nz, lt, out) = frame_alloc-Allocated s (f ∷ ps) free in
    let root = phys_virt s.offset f in
    let t : Machine = record s { mem = clear s.mem root 4096; page_list = next } in
    let (g, runs, c) =
      copy_upper-Copied 256 root 256 t whole (omega arith) ka ks ne (omega arith) in
    record {
      mem = g;
      next = next;
      runs = rw (eq, runs) refl;
      lower = λ j h. c.others (root + 8 * j) (λ k l u e. absurd (omega arith)) ∙ ground arith;
      upper = λ j l u. c.entries j l u ∙ ground arith;
      others = λ b out. c.others b (λ k l u e. absurd (out (omega arith))) ∙ ground arith;
      free = rest;
      in_range = lt;
      distinct = out;
    }
