-- ===== src/Memory/Frame/Usable.antt =====
-- frame_init on a memory map as the boot protocol promises it.
use dos_kernel.Common.{
  ℕ, zero, suc, ◌+◌, ◌*◌, ◌/◌, ◌%◌, ◌^◌, ◌≤◌, ◌<◌, ◌≡◌, ◌⊎◌, inl, inr, arith, List, [], ◌∷◌, true,
  false, ◌==◌, Bool-cases, if◌then◌else◌,
}
use dos_kernel.Memory.Machine.{Machine}
use dos_kernel.Memory.Frame.{MemmapEntry, frame_init}
use dos_kernel.Memory.Frame.FreeList.{IsFreeList, has}
use dos_kernel.Memory.Frame.Init.{
  Distinct, Leaves, WellFormed, push_pages, usable_frames, frames_from-Reaches,
}

-- The end of the usable memory up to an entry.
abbrev after_entry : ℕ → ℕ → MemmapEntry → ℕ
after_entry usable low e = if e.type == usable then e.base + e.length else low

-- What the boot protocol promises of the usable entries, which are the ones that frame_init reads: they are whole pages,
-- come in ascending order from `low` on without an overlap, and end within the address space. Other entries are arbitrary.
abbrev pub Ascending : ℕ → ℕ → List MemmapEntry → Type 0
Ascending usable low [] = Unit
Ascending usable low (e ∷ map) =
    ((e.type == usable) ≡ true
      → (low ≤ e.base) × (e.length % 4096 ≡ 0) × (e.base + e.length < 2 ^ 64))
    × Ascending usable (after_entry usable low e) map

Ascending-WellFormed :
    (usable low : ℕ) (map : List MemmapEntry) → Ascending usable low map → WellFormed usable map
Ascending-WellFormed usable low [] a = tt
Ascending-WellFormed usable low (e ∷ map) (promise, a) = (
  λ y. let (from, whole, ends) = promise y in (whole, ends),
  Ascending-WellFormed usable (after_entry usable low e) map a,
)

-- The frames of one entry are distinct.
push_pages-Distinct :
    (n base : ℕ) (ps : List ℕ)
    → Distinct ps
    → ((f : ℕ) → has f ps ≡ true → f < base)
    → 0 < base
    → base + n * 4096 < 2 ^ 64
    → Distinct (push_pages n base ps)
push_pages-Distinct zero base ps d low pos fits = d
push_pages-Distinct (suc n) base ps d low pos fits =
    let new : has base ps ≡ false = elim (Bool-cases (has base ps)) [
      | inl e ↦ let l = low base e in absurd (omega arith)
      | inr e ↦ e
    ] in
    push_pages-Distinct n (base + 4096) (base ∷ ps) (omega arith, omega arith, new, d)
      (λ f h. ground (arith, low f)) (omega arith) (omega arith)

has-push_pages :
    (n base f : ℕ) (ps : List ℕ)
    → has f (push_pages n base ps) ≡ true
    → (has f ps ≡ true) ⊎ (f < base + n * 4096)
has-push_pages zero base f ps h = inl h
has-push_pages (suc n) base f ps h = elim (has-push_pages n (base + 4096) f (base ∷ ps) h) [
  | inl e ↦ ground arith
  | inr high ↦ inr (omega arith)
]

below_end :
    (base len : ℕ) (ps : List ℕ)
    → len % 4096 ≡ 0
    → ((f : ℕ) → has f ps ≡ true → f < base + len)
    → (f : ℕ) → has f (push_pages (len / 4096) base ps) ≡ true
    → f < base + len
below_end base len ps whole low f h = elim (has-push_pages (len / 4096) base f ps h) [
  | inl e ↦ low f e
  | inr high ↦ omega arith
]

Ascending-Distinct :
    (usable low : ℕ) (map : List MemmapEntry) (ps : List ℕ)
    → Ascending usable low map
    → 0 < low
    → Distinct ps
    → ((f : ℕ) → has f ps ≡ true → f < low)
    → Distinct (usable_frames usable map ps)
unfolding usable_frames
Ascending-Distinct usable low [] ps a pos d lows = d
Ascending-Distinct usable low (e ∷ map) ps (promise, a) pos d lows =
    elim (Bool-cases (e.type == usable)) [
      | inl y ↦
          let (from, whole, ends) = promise y in
          let pushed = push_pages (e.length / 4096) e.base ps in
          let new : Distinct pushed =
            push_pages-Distinct (e.length / 4096) e.base ps d
              (λ f h. let l = lows f h in omega arith) (omega arith) (omega arith) in
          let under = below_end e.base e.length ps whole (λ f h. let l = lows f h in omega arith) in
          rw y (
            Ascending-Distinct usable (e.base + e.length) map pushed (rw y at a) (omega arith) new
              under)
      | inr n ↦ rw n (Ascending-Distinct usable low map ps (rw n at a) pos d lows)
    ]

-- On a memory map whose usable entries are whole pages in ascending order, without an overlap, from the second page on and
-- below 2 ^ 64, and from an empty list, frame_init ends, leaves free exactly the frames of the usable entries, the
-- last one on top, and writes to these frames alone.
pub frame_init-Leaves :
    (usable : ℕ) (map : List MemmapEntry) (s : Machine)
    → Ascending usable 0x1000 map
    → s.page_list ≡ 0
    → Leaves s (usable_frames usable map []) (frame_init usable map s)
frame_init-Leaves usable map s a e =
    let d = Ascending-Distinct usable 0x1000 map [] a (omega arith) tt (λ f h. ground arith) in
    frames_from-Reaches usable map [] (usable_frames usable map []) s
      (Ascending-WellFormed usable 0x1000 map a) (rw e IsFreeList.nil) d (λ f i. i)
