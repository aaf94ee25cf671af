-- ===== src/Memory/Heap/Space.antt =====
-- The heap in the address space of the kernel: its free blocks lie between its start and its top, and no
-- page table and no spare frame is seen from there on.
use dos_kernel.Common.{
  ℕ, ◌+◌, ◌*◌, ◌/◌, ◌%◌, ◌^◌, ◌≤◌, ◌<◌, ◌≡◌, inl, inr, refl, ◌∙◌, arith, List, [], ◌∷◌, some, true,
  Bool-cases, leb,
}
use dos_kernel.Memory.Machine.{Machine, Memory, phys_virt}
use dos_kernel.Memory.Frame.FreeList.{has}
use dos_kernel.Memory.Paging.{entry_from}
use dos_kernel.Memory.Paging.Tree.{Owner, Confined}
use dos_kernel.Memory.Paging.Walk.{Ready, phys_virt-aligned}
use dos_kernel.Memory.Paging.Held.{
  Held, Confined-Held, SameTables, SameTables-Ready, SameTables-entry,
}
use dos_kernel.Memory.Heap.Blocks.{IsBlocks, end, block, HasBlocks, is_whole, first_fit}
use dos_kernel.Memory.Heap.Fit.{Whenever, Whenever-keep, taken_le}

-- Each block lies from `start` on and ends before `top`.
abbrev pub Placed : ℕ → ℕ → List (ℕ × ℕ) → Type 0
Placed start top [] = Unit
Placed start top ((p, n) ∷ bs) = (start ≤ p) × (p + 24 + n ≤ top) × Placed start top bs

pub Placed-higher :
    (start top high : ℕ) (bs : List (ℕ × ℕ))
    → top ≤ high
    → Placed start top bs
    → Placed start high bs
Placed-higher start top high [] h placed = tt
Placed-higher start top high ((p, n) ∷ bs) h (low, fits, more) =
    (low, omega arith, Placed-higher start top high bs h more)

-- Blocks survive a change of memory that spares the bytes from `start` to `top`.
pub Placed-kept :
    {m : Memory} {c : ℕ} (g : Memory) (start top : ℕ) {bs : List (ℕ × ℕ)}
    → IsBlocks m c bs
    → Placed start top bs
    → ((a : ℕ) → start ≤ a → a < top → g a ≡ m a)
    → IsBlocks g c bs
Placed-kept g start top end placed same = end
Placed-kept {m} {c} g start top (block {n} ne lt size apart rest) (low, fits, more) same =
    let next : g (c + 16) ≡ m (c + 16) = same (c + 16) (omega arith) (omega arith) in
    block ne lt (same (c + 8) (omega arith) (omega arith) ∙ size) apart
      (rw next (Placed-kept g start top rest more same))

-- The taken block and those that are left lie where the old ones lay.
pub first_fit-Placed :
    (want start top : ℕ) (bs : List (ℕ × ℕ))
    → Placed start top bs
    → Whenever (λ (q, k, rest). Placed start top ((q, k) ∷ rest)) (first_fit want bs)
unfolding first_fit
first_fit-Placed want start top [] placed = tt
first_fit-Placed want start top ((p, n) ∷ bs) (low, fits, more) = elim (Bool-cases (leb want n)) [
  | inl e ↦
      let fit : want ≤ n = ground arith in
      let le = taken_le want n fit in
      rw e (
        low,
        omega arith,
        elim (Bool-cases (is_whole want n)) [
          | inl w ↦ rw w more
          | inr w ↦ let big : want + 40 ≤ n = ground arith in rw w (omega arith, omega arith, more)
        ],
      )
  | inr e ↦ rw e (
      Whenever-keep (λ (q, k, rest). Placed start top ((q, k) ∷ rest))
        (λ (q, k, rest). Placed start top ((q, k) ∷ rest)) (p, n)
        (λ q k rest (a, b, others). (a, b, (low, fits, others))) (first_fit want bs)
        (first_fit-Placed want start top bs more))
]

-- Every page from `start` on is neither a table nor a spare frame.
abbrev pub AllHeld : Owner → ℕ → List ℕ → ℕ → Type 0
AllHeld own o ps start = (q : ℕ) → start ≤ q → q < 2 ^ 64 → q % 4096 ≡ 0 → Held own o ps q

-- A heap from `start` on, with the free blocks `bs`.
pub record IsHeap (own : Owner) (ps : List ℕ) (start : ℕ) (bs : List (ℕ × ℕ)) (s : Machine)
    : Type 0 where
  pub ready : Ready own s ps
  pub root_owned : own s.kernel_pml4 ≡ some (3, 0)
  pub held : AllHeld own s.offset ps start
  pub whole : (start % 4096 ≡ 0) × (s.heap_top % 4096 ≡ 0)
  pub range : (0 < start) × (start ≤ s.heap_top) × (s.heap_top ≤ 2 ^ 64)
  pub blocks : HasBlocks s bs
  pub placed : Placed start s.heap_top bs

-- Building tables keeps the words from `start` on.
pub Confined-AllHeld :
    {own own' : Owner} {s t : Machine} {ps ps' : List ℕ} (start : ℕ)
    → Confined own s ps own' t ps'
    → start % 4096 ≡ 0
    → AllHeld own s.offset ps start
    → AllHeld own' t.offset ps' start × ((a : ℕ) → start ≤ a → a < 2 ^ 64 → t.mem a ≡ s.mem a)
Confined-AllHeld {s} {t} start c whole held = (
  λ q low high aligned. (Confined-Held c (held q low high aligned)).0,
  λ a low high.
      let q = a / 4096 * 4096 in
      let at : q + a % 4096 ≡ a = omega arith in
      rw at at (
        (Confined-Held c (held q (omega arith) (omega arith) (omega arith))).1 (a % 4096)
          (omega arith)),
)

module _ {own : Owner} {ps : List ℕ} {start : ℕ} {bs : List (ℕ × ℕ)} {s : Machine}
    (is : IsHeap own ps start bs s) (g : Memory) (list top : ℕ)
    (below : (a : ℕ) → a < start → g a ≡ s.mem a) where
  abbrev written : Machine
  written = record s { mem = g; free_list = list; heap_top = top }

  -- The tables lie below the heap.
  table_below : (u i : ℕ) {x : ℕ × ℕ} → own u ≡ some x → i < 512 → u + 8 * i < start
  table_below u i o h =
      let (a, l) = is.ready.tables.aligned u o in
      let w = is.whole.0 in
      elim (Bool-cases (leb start u)) [
        | inl e ↦ let no = (is.held u (ground arith) l a).no_table in absurd (cc (o, no))
        | inr e ↦ let less : u < start = ground arith in omega arith
      ]

  frame_below : (a : ℕ) → has a ps ≡ true → phys_virt s.offset a < start
  frame_below a h =
      let (pa, la, un) = is.ready.apart.pages a h in
      let (au, lu) = phys_virt-aligned s.offset a is.ready.apart.window.0 pa in
      elim (Bool-cases (leb start (phys_virt s.offset a))) [
        | inl e ↦ absurd ((is.held (phys_virt s.offset a) (ground arith) lu au).no_frame a h refl)
        | inr e ↦ ground arith
      ]

  same_tables : SameTables own s written
  same_tables = record { window = refl; words = λ u i o h. below (u + 8 * i) (table_below u i o h) }

  -- Stores from `start` on keep the tables and all lookups.
  pub written-IsHeap :
      (rest : List (ℕ × ℕ))
      → IsBlocks g list rest
      → Placed start top rest
      → top % 4096 ≡ 0
      → (start ≤ top) × (top ≤ 2 ^ 64)
      → IsHeap own ps start rest written
  written-IsHeap rest chain placed aligned (low, high) = record {
    ready =
        SameTables-Ready is.ready.tables same_tables is.ready.apart.window is.ready.apart.pages
          is.ready.apart.free (λ a h. below _ (frame_below a h));
    root_owned = is.root_owned;
    held = is.held;
    whole = (is.whole.0, aligned);
    range = (is.range.0, low, high);
    blocks = chain;
    placed = placed;
  }

  pub written-lookups :
      (w : ℕ) → entry_from 3 s.kernel_pml4 w written ≡ entry_from 3 s.kernel_pml4 w s
  written-lookups w = SameTables-entry is.ready.tables same_tables 3 s.kernel_pml4 0 w is.root_owned
