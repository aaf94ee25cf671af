-- ===== src/Memory/Heap/Search.antt =====
-- The first-fit search of kmalloc: the loop over the free list and the cut.
use dos_kernel.Common.{
  ℕ, zero, suc, ◌+◌, ◌^◌, ◌≤◌, ◌<◌, ◌≡◌, ◌≢◌, ◌⊎◌, inl, inr, refl, ◌∙◌, arith, List, [], ◌∷◌,
  length, Option, none, some, Bool-cases, false, leb, ◌==◌, ==_refl, if◌then◌else◌, ok, Run,
}
use dos_kernel.Memory.Machine.{Machine, Memory, write}
use dos_kernel.Memory.Heap.{split, take_block, search}
use dos_kernel.Memory.Heap.Fit.{
  Whenever, ApartAll-remainder, taken_le, taken_apart, first_fit-ApartAll,
}
use dos_kernel.Memory.Heap.Split.{Cut, split-Cut}
use dos_kernel.Memory.Heap.Blocks.{
  ApartAll, IsBlocks, block, First, First-of, first_of_nil, Outside, headers_kept, taken_size,
  remainder, Fit, first_fit, keep_block,
}

-- Where the list that is searched hangs: at the variable, or in the block before it.
abbrev pub link : ℕ → Machine → ℕ
link prev s = if prev == 0 then s.free_list else s.mem (prev + 16)

-- A run that takes the block `q` of `k` bytes out of the blocks `bs` behind `prev` and leaves `rest` there.
pub record Took (prev : ℕ) (bs : List (ℕ × ℕ)) (s : Machine) (q k : ℕ) (rest : List (ℕ × ℕ))
    (r : Run Machine ℕ) : Type 0 where
  pub mem : Memory
  pub list : ℕ
  pub runs : r ≡ ok (q + 24) (record s { mem = mem; free_list = list })
  pub chain : IsBlocks mem (link prev (record s { mem = mem; free_list = list })) rest
  pub behind : prev ≢ 0 → list ≡ s.free_list
  pub sized : mem (q + 8) ≡ k
  pub same : (a : ℕ) → Outside a bs → (prev ≢ 0 → a ≢ prev + 16) → mem a ≡ s.mem a

abbrev pub Searched : ℕ → List (ℕ × ℕ) → Machine → Option Fit → Run Machine ℕ → Type 0
Searched prev bs s none r = r ≡ ok 0 s
Searched prev bs s (some (q, k, rest)) r = Took prev bs s q k rest r

module _ (want c n : ℕ) (bs : List (ℕ × ℕ)) (s : Machine) (d : Cut want c n bs s (split c want s))
    (fit : want ≤ n) (apart : ApartAll c n bs) where
  take_first-Took :
      Took 0 ((c, n) ∷ bs) s c (taken_size want n) (remainder want c n bs) (take_block 0 c want s)
  unfolding take_block
  take_first-Took =
      let g = write d.mem (c + 16) 0 in
      let size = taken_size want n in
      let (le, enough) = taken_le want n fit in
      let own = taken_apart want c n bs fit apart in
      record {
        mem = g;
        list = d.mem (c + 16);
        runs = rw d.runs refl;
        chain = headers_kept g c size c size d.chain own own (λ a h l. ground arith);
        behind = λ h. absurd (h refl);
        sized = let other : (c + 8 == c + 16) ≡ false = ground arith in rw other d.sized;
        same = λ a (out, more) h. ground (arith, d.same a out);
      }

  take_later-Took :
      (prev k : ℕ)
      → prev ≢ 0
      → ApartAll prev k ((c, n) ∷ bs)
      → Took prev
          ((c, n) ∷ bs)
          s
          c
          (taken_size want n)
          (remainder want c n bs)
          (take_block prev c want s)
  unfolding take_block
  take_later-Took prev k ne (o, more) =
      let g = write (write d.mem (prev + 16) (d.mem (c + 16))) (c + 16) 0 in
      let size = taken_size want n in
      let (le, enough) = taken_le want n fit in
      let own = taken_apart want c n bs fit apart in
      let before = ApartAll-remainder want prev k c n bs (o, more) in
      let p : (prev == 0) ≡ false = ground arith in
      let apart_links : (prev + 16 == c + 16) ≡ false = ground arith in
      let size_kept : (c + 8 == c + 16) ≡ false = ground arith in
      let size_after : (c + 8 == prev + 16) ≡ false = ground arith in
      record {
        mem = g;
        list = s.free_list;
        runs = rw (d.runs, p) refl;
        chain =
            rw (p, apart_links, ==_refl)
              (headers_kept g c size prev k d.chain own before (λ a h l. ground arith));
        behind = λ h. refl;
        sized = rw (size_kept, size_after) d.sized;
        same = λ a (out, rest) h. let away = h ne in ground (arith, d.same a out);
      }

pub ApartAll-Outside :
    (p n a : ℕ) (bs : List (ℕ × ℕ)) → p ≤ a → a < p + 24 + n → ApartAll p n bs → Outside a bs
ApartAll-Outside p n a [] h l apart = tt
ApartAll-Outside p n a ((q, k) ∷ bs) h l (one, more) =
    (omega arith, ApartAll-Outside p n a bs h l more)

-- The block before the list that is searched: none, or one apart from its blocks.
abbrev Before : ℕ → ℕ → List (ℕ × ℕ) → Type 0
Before prev n bs = (prev ≡ 0) ⊎ ((prev ≢ 0) × ApartAll prev n bs)

link_kept :
    (prev j p n : ℕ) (bs : List (ℕ × ℕ)) (s t : Machine)
    → Before prev j ((p, n) ∷ bs)
    → (prev ≡ 0 → t.free_list ≡ s.free_list)
    → ((a : ℕ) → Outside a bs → a ≢ p + 16 → t.mem a ≡ s.mem a)
    → link prev t ≡ link prev s
link_kept prev j p n bs s t (inl e) list same = rw e (list e)
link_kept prev j p n bs s t (inr (ne, (one, more))) list same =
    let test : (prev == 0) ≡ false = ground arith in
    rw test (
      same (prev + 16) (ApartAll-Outside prev j (prev + 16) bs (omega arith) (omega arith) more)
        (omega arith))

-- The rest of the list was searched from the block `p` of `n` bytes.
Searched-keep :
    (prev j p n : ℕ) (bs : List (ℕ × ℕ)) (s : Machine) (o : Option Fit) (r : Run Machine ℕ) {c : ℕ}
    → First s.mem c p n bs
    → link prev s ≡ p
    → Before prev j ((p, n) ∷ bs)
    → Whenever (λ (q, k, rest). ApartAll p n ((q, k) ∷ rest)) o
    → Searched p bs s o r
    → Searched prev ((p, n) ∷ bs) s (keep_block (p, n) o) r
Searched-keep prev j p n bs s none r b at before apart e = e
Searched-keep prev j p n bs s (some (q, k, rest)) r b at before (first, others) took =
    let t : Machine = record s { mem = took.mem; free_list = took.list } in
    let spot : (p == 0) ≡ false = let ne = b.ne_zero in ground arith in
    let own = ApartAll-Outside p n (p + 8) bs (omega arith) (omega arith) b.apart in
    let size : took.mem (p + 8) ≡ n = took.same (p + 8) own (λ h. omega arith) ∙ b.sized in
    let linked : link prev t ≡ p =
      link_kept prev j p n bs s t before (λ h. took.behind b.ne_zero)
        (λ a out ne. took.same a out (λ h. ne))
      ∙ at in
    let rest_chain : IsBlocks took.mem (took.mem (p + 16)) rest = rw spot at took.chain in
    record {
      mem = took.mem;
      list = took.list;
      runs = took.runs;
      chain = rw linked (block b.ne_zero b.in_range size others rest_chain);
      behind = λ h. took.behind b.ne_zero;
      sized = took.sized;
      same = λ a (out, more) h. took.same a more (λ g. omega arith);
    }

-- The loop finds what first fit finds, with fuel for each block of the list and its end.
pub search-Searched :
    (fuel prev j c want : ℕ) (bs : List (ℕ × ℕ)) (s : Machine)
    → want ≢ 0
    → want + 40 < 2 ^ 64
    → IsBlocks s.mem c bs
    → link prev s ≡ c
    → Before prev j bs
    → length bs < fuel
    → Searched prev bs s (first_fit want bs) (search fuel prev c want s)
unfolding search first_fit
search-Searched zero prev j c want bs s ne small chain at before enough = absurd (omega arith)
search-Searched (suc fuel) prev j c want [] s ne small chain at before enough =
    let stop = first_of_nil chain in rw stop refl
search-Searched (suc fuel) prev j c want ((p, n) ∷ bs) s ne small chain at before enough =
    let b = First-of chain in
    let go : (c == 0) ≡ false = let p_ne = b.ne_zero in let e = b.same in ground arith in
    elim (Bool-cases (leb want n)) [
      | inl e ↦
          let fit : want ≤ n = ground arith in
          let d = split-Cut want p n bs s ne small b.ne_zero b.in_range b.sized b.apart b.rest in
          let took : Took prev ((p, n) ∷ bs) s p (taken_size want n) (remainder want p n bs)
              (take_block prev p want s) =
            elim before [
              | inl z ↦ rw z (take_first-Took want p n bs s d fit b.apart)
              | inr (prev_ne, apart) ↦
                  take_later-Took want p n bs s d fit b.apart prev j prev_ne apart
            ] in
          rw (go, b.same, b.sized, e) took
      | inr e ↦
          let rest =
            search-Searched fuel p n (s.mem (p + 16)) want bs s ne small b.rest
              (let spot : (p == 0) ≡ false = let ne = b.ne_zero in ground arith in rw spot refl)
              (inr (b.ne_zero, b.apart)) (omega arith) in
          rw (go, b.same, b.sized, e)
            (Searched-keep prev j p n bs s (first_fit want bs)
              (search fuel p (s.mem (p + 16)) want s) b (at ∙ b.same) before
              (first_fit-ApartAll want p n bs b.apart) rest)
    ]
