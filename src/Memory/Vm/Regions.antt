-- ===== src/Memory/Vm/Regions.antt =====
-- The region list of an address space, and the rounding of sizes to pages.
use dos_kernel.Common.{
  ℕ, zero, suc, ◌+◌, ◌-◌, ◌*◌, ◌/◌, ◌%◌, ◌^◌, ◌<◌, ◌≡◌, ◌≢◌, refl, ◌∙◌, arith, false, List, [], ◌∷◌,
  length, All, u64, ◌==◌, ==_refl, ltb, if◌then◌else◌, Bool-cases, inl, inr, ok, Run,
}
use dos_kernel.Common.Bits.{bit_and_split, bit_and_mask, bit_and-zero}
use dos_kernel.Memory.Machine.{Machine, Memory, write}
use dos_kernel.Memory.Vm.{page_up, remove_loop, region_remove, region_insert}

-- A size that does not wrap is rounded up to the next multiple of a page. Above 2 ^ 64 - 4096 the sum
-- wraps and the rounded size is 0.
pub page_up_lem :
    (size : ℕ)
    → size < 2 ^ 64
    → page_up size ≡ (if ltb (2 ^ 64 - 4096) size then 0 else (size + 4095) / 4096 * 4096)
unfolding page_up
page_up_lem size h =
    let x = u64 (size + 0xFFF) in
    ground (
      arith,
      bit_and_split 12 (x / 2 ^ 12) (x % 2 ^ 12) (2 ^ 52 - 1) 0,
      bit_and_mask 52 (x / 2 ^ 12),
      bit_and-zero (x % 2 ^ 12),
    )

-- The word `a` is not a base or a link of the regions `rs`, which are given by address and base.
abbrev pub Off : ℕ → List (ℕ × ℕ) → Type 0
Off a = All (λ r. (a ≢ r.0) × (a ≢ r.0 + 16))

-- The word `a` is not a link of the regions `rs`.
abbrev pub OffLinks : ℕ → List (ℕ × ℕ) → Type 0
OffLinks a = All (λ r. a ≢ r.0 + 16)

Off-OffLinks : (a : ℕ) (rs : List (ℕ × ℕ)) → Off a rs → OffLinks a rs
Off-OffLinks a [] off = tt
Off-OffLinks a (r ∷ rs) ((_, link), off) = (link, Off-OffLinks a rs off)

-- From `p` the links lead through the regions `rs` to NULL.
pub data IsRegions (m : Memory) : ℕ → List (ℕ × ℕ) → Type 0 where
  nil : IsRegions m 0 []
  cons :
      {p b : ℕ} {rs : List (ℕ × ℕ)}
      → p ≢ 0
      → m p ≡ b
      → Off p rs
      → Off (p + 16) rs
      → IsRegions m (m (p + 16)) rs
      → IsRegions m p ((p, b) ∷ rs)

-- The first region with the base, or NULL, and the list without it.
abbrev pub first_at : ℕ → List (ℕ × ℕ) → ℕ
first_at base [] = 0
first_at base ((p, b) ∷ rs) = if b == base then p else first_at base rs

abbrev pub without : ℕ → List (ℕ × ℕ) → List (ℕ × ℕ)
without base [] = []
without base ((p, b) ∷ rs) = if b == base then rs else (p, b) ∷ without base rs

pub same-IsRegions :
    {m : Memory} {g : Memory} {p : ℕ} {rs : List (ℕ × ℕ)}
    → IsRegions m p rs
    → All (λ r. (g r.0 ≡ m r.0) × (g (r.0 + 16) ≡ m (r.0 + 16))) rs
    → IsRegions g p rs
same-IsRegions nil same = nil
same-IsRegions (cons ne b off off' rest) ((eb, en), same) =
    cons ne (eb ∙ b) off off' (rw en (same-IsRegions rest same))

Off-write :
    (m : Memory) (a v : ℕ) (rs : List (ℕ × ℕ))
    → Off a rs
    → All (λ r. (write m a v r.0 ≡ m r.0) × (write m a v (r.0 + 16) ≡ m (r.0 + 16))) rs
Off-write m a v [] off = tt
Off-write m a v ((p, b) ∷ rs) ((x, y), off) = ((ground arith, ground arith), Off-write m a v rs off)

Off-without : (a base : ℕ) (rs : List (ℕ × ℕ)) → Off a rs → Off a (without base rs)
Off-without a base [] off = tt
Off-without a base ((p, b) ∷ rs) (here, off) = elim (Bool-cases (b == base)) [
  | inl y ↦ rw y off
  | inr n ↦ rw n (here, Off-without a base rs off)
]

-- A run that took the first region with `base` out of the list behind the link at `cur`.
pub record Removed (base cur : ℕ) (rs : List (ℕ × ℕ)) (s : Machine) (r : Run Machine ℕ)
    : Type 0 where
  pub after : Machine
  pub runs : r ≡ ok (first_at base rs) after
  pub chain : IsRegions after.mem (after.mem cur) (without base rs)
  pub elsewhere : (a : ℕ) → a ≢ cur → OffLinks a rs → after.mem a ≡ s.mem a
  pub same : after ≡ record s { mem = after.mem }

remove_loop-Removed :
    (fuel cur base : ℕ) {p : ℕ} {rs : List (ℕ × ℕ)} (s : Machine)
    → length rs < fuel
    → s.mem cur ≡ p
    → IsRegions s.mem p rs
    → Off cur rs
    → Removed base cur rs s (remove_loop fuel cur base s)
unfolding remove_loop
remove_loop-Removed zero cur base s f at chain off = absurd (omega arith)
remove_loop-Removed (suc fuel) cur base s f at nil off = record {
  after = s;
  runs = rw at refl;
  chain = rw at nil;
  elsewhere = λ a ne o. refl;
  same = refl;
}
remove_loop-Removed (suc fuel) cur base s f at (cons {p} {b} {rs} ne eb offp offn rest)
      (here, off) =
    let nonzero : (p == 0) ≡ false = ground arith in
    elim (Bool-cases (b == base)) [
      | inl hit ↦
          let m = write s.mem cur (s.mem (p + 16)) in
          let next : m cur ≡ s.mem (p + 16) = rw ==_refl refl in
          record {
            after = record s { mem = m };
            runs = rw (at, nonzero, eb, hit) refl;
            chain =
                rw (hit, next) (same-IsRegions rest (Off-write s.mem cur (s.mem (p + 16)) rs off));
            elsewhere = λ a ne' o. ground arith;
            same = refl;
          }
      | inr miss ↦
          let ih = remove_loop-Removed fuel (p + 16) base s (omega arith) refl rest offn in
          let cur_kept : ih.after.mem cur ≡ p =
            ih.elsewhere cur here.1 (Off-OffLinks cur rs off) ∙ at in
          let base_kept : ih.after.mem p ≡ b =
            ih.elsewhere p (omega arith) (Off-OffLinks p rs offp) ∙ eb in
          record {
            after = ih.after;
            runs = rw (at, nonzero, eb, miss) ih.runs;
            chain =
                rw (miss, cur_kept)
                  (cons ne base_kept (Off-without p base rs offp)
                    (Off-without (p + 16) base rs offn) ih.chain);
            elsewhere = λ a ne' o. ih.elsewhere a o.0 o.1;
            same = ih.same;
          }
    ]

-- The regions of the address space at `space`.
abbrev pub HasRegions : ℕ → Machine → List (ℕ × ℕ) → Type 0
HasRegions space s rs = IsRegions s.mem (s.mem (space + 32)) rs

-- region_remove returns the first region with the base and takes it off the list; it returns NULL and
-- keeps the list when there is none. It writes to the head of the list and to links of its regions alone: the
-- base and size of every region are kept. The fuel is above the length of the list.
pub region_remove-Removed :
    (fuel space base : ℕ) (rs : List (ℕ × ℕ)) (s : Machine)
    → length rs < fuel
    → HasRegions space s rs
    → Off (space + 32) rs
    → Removed base (space + 32) rs s (region_remove fuel space base s)
unfolding region_remove
region_remove-Removed fuel space base rs s f chain off =
    remove_loop-Removed fuel (space + 32) base s f refl chain off

-- region_insert puts a region in front of the list of its space.
pub region_insert-cons :
    (space r : ℕ) (rs : List (ℕ × ℕ)) (s : Machine)
    → HasRegions space s rs
    → r ≢ 0
    → space + 32 ≢ r
    → space + 32 ≢ r + 16
    → Off r rs
    → Off (r + 16) rs
    → Off (space + 32) rs
    → (t : Machine) × (region_insert space r s ≡ ok tt t) × HasRegions space t ((r, s.mem r) ∷ rs)
unfolding region_insert
region_insert-cons space r rs s chain ne apart apart' offr offn offs =
    let head = s.mem (space + 32) in
    let m = write s.mem (r + 16) head in
    let g = write m (space + 32) r in
    let first = same-IsRegions chain (Off-write s.mem (r + 16) head rs offn) in
    let second = same-IsRegions first (Off-write m (space + 32) r rs offs) in
    let top : g (space + 32) ≡ r = ground arith in
    let link : g (r + 16) ≡ head = ground arith in
    let kept : g r ≡ s.mem r = ground arith in
    (record s { mem = g }, refl, rw top (cons ne kept offr offn (rw link second)))
