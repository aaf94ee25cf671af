-- ===== src/Memory/Frame/Init.antt =====
-- frame_init against the memory map: which frames it leaves free.
use dos_kernel.Common.{
  ℕ, zero, suc, ◌+◌, ◌*◌, ◌/◌, ◌%◌, ◌^◌, ◌<◌, ◌≡◌, ◌≢◌, refl, ap, ◌∙◌, arith, List, [], ◌∷◌, true,
  false, ◌==◌, ==_refl, if◌then◌else◌, ltb, ok, u64, Bool-cases, Run, inl, inr,
}
use dos_kernel.Memory.Machine.{Machine, phys_virt, write}
use dos_kernel.Memory.Frame.{frame_free, free_pages, MemmapEntry, frame_init}
use dos_kernel.Memory.Frame.FreeList.{has, HasFree, frame_free-cons}

-- The frames from `base` on, pushed one by one in front of `ps`.
abbrev pub push_pages : ℕ → ℕ → List ℕ → List ℕ
push_pages zero base ps = ps
push_pages (suc n) base ps = push_pages n (base + 4096) (base ∷ ps)

-- The frames of the usable entries of a memory map, the last one first, in front of `ps`.
unfoldable pub usable_frames : ℕ → List MemmapEntry → List ℕ → List ℕ
usable_frames usable [] ps = ps
usable_frames usable (e ∷ map) ps =
    usable_frames usable map
      (if e.type == usable then push_pages (e.length / 4096) e.base ps else ps)

-- Frames that can all stand in the free list.
abbrev pub Distinct : List ℕ → Type 0
Distinct [] = Unit
Distinct (p ∷ ps) = (p ≢ 0) × (p < 2 ^ 64) × (has p ps ≡ false) × Distinct ps

-- The usable entries are whole pages and end within the address space.
abbrev pub WellFormed : ℕ → List MemmapEntry → Type 0
WellFormed usable [] = Unit
WellFormed usable (e ∷ map) =
    ((e.type == usable) ≡ true → (e.length % 4096 ≡ 0) × (e.base + e.length < 2 ^ 64))
    × WellFormed usable map

-- Only the list of free frames and the first words of the frames `ps` differ.
pub record Untouched (ps : List ℕ) (s t : Machine) : Type 0 where
  pub rest : t ≡ record s { mem = t.mem; page_list = t.page_list }
  pub word : (a : ℕ) → ((f : ℕ) → has f ps ≡ true → a ≢ phys_virt s.offset f) → t.mem a ≡ s.mem a

-- A run that ends with the frames `ps` free and writes to frames of `all` alone.
abbrev pub Reaches : List ℕ → Machine → List ℕ → Run Machine (Unit {0}) → Type 0
Reaches all s ps r = (t : Machine) × (r ≡ ok tt t) × HasFree t ps × Untouched all s t

abbrev pub Leaves : Machine → List ℕ → Run Machine (Unit {0}) → Type 0
Leaves s ps r = Reaches ps s ps r

Untouched-refl : (ps : List ℕ) (s : Machine) → Untouched ps s s
Untouched-refl ps s = record { rest = refl; word = λ a out. refl }

Untouched-trans :
    (ps : List ℕ) {s t r : Machine} → Untouched ps s t → Untouched ps t r → Untouched ps s r
Untouched-trans ps {s} {t} {r} f g =
    let window : t.offset ≡ s.offset = ap (λ (x : Machine). x.offset) f.rest in
    record {
      rest =
          let with_list : Machine → Machine =
            λ x. record x { mem = r.mem; page_list = r.page_list } in
          g.rest ∙ ap with_list f.rest;
      word = λ a out. g.word a (λ p i. rw window (out p i)) ∙ f.word a out;
    }

-- A frame that is given back.
frame_free-Untouched :
    (ps : List ℕ) (p : ℕ) (s t : Machine)
    → frame_free p s ≡ ok tt t
    → has p ps ≡ true
    → ((a : ℕ) → a ≢ phys_virt s.offset p → t.mem a ≡ s.mem a)
    → Untouched ps s t
unfolding frame_free
frame_free-Untouched ps p s t e i other =
    let same : record s { mem = write s.mem (phys_virt s.offset p) s.page_list; page_list = p }
        ≡ t =
      cc e in
    record { rest = rw (← same) refl; word = λ a out. other a (out p i) }

has-push_pages :
    (n base f : ℕ) (ps : List ℕ) → has f ps ≡ true → has f (push_pages n base ps) ≡ true
has-push_pages zero base f ps h = h
has-push_pages (suc n) base f ps h = has-push_pages n (base + 4096) f (base ∷ ps) (ground arith)

has-usable :
    (usable : ℕ) (map : List MemmapEntry) (f : ℕ) (ps : List ℕ)
    → has f ps ≡ true
    → has f (usable_frames usable map ps) ≡ true
unfolding usable_frames
has-usable usable [] f ps h = h
has-usable usable (e ∷ map) f ps h = elim (Bool-cases (e.type == usable)) [
  | inl y ↦ rw y (
      has-usable usable map f (push_pages (e.length / 4096) e.base ps)
        (has-push_pages (e.length / 4096) e.base f ps h))
  | inr n ↦ rw n (has-usable usable map f ps h)
]

Distinct-push_pages : (n base : ℕ) (ps : List ℕ) → Distinct (push_pages n base ps) → Distinct ps
Distinct-push_pages zero base ps d = d
Distinct-push_pages (suc n) base ps d = (Distinct-push_pages n (base + 4096) (base ∷ ps) d).3

then_Reaches :
    {all ps : List ℕ} {s t : Machine} {r : Run Machine (Unit {0})}
    → Untouched all s t
    → Reaches all t ps r
    → Reaches all s ps r
then_Reaches {all} one (t', eq, free, more) = (t', eq, free, Untouched-trans all one more)

free_pages-Reaches :
    (fuel n base end : ℕ) (ps all : List ℕ) (s : Machine)
    → n < fuel
    → base + n * 4096 ≡ end
    → end < 2 ^ 64
    → HasFree s ps
    → Distinct (push_pages n base ps)
    → ((f : ℕ) → has f (push_pages n base ps) ≡ true → has f all ≡ true)
    → Reaches all s (push_pages n base ps) (free_pages fuel base end s)
unfolding free_pages
free_pages-Reaches zero n base end ps all s f e lt h d sub = absurd (omega arith)
free_pages-Reaches (suc fuel) zero base end ps all s f e lt h d sub =
    let stop : ltb base end ≡ false = ground arith in rw stop (s, refl, h, Untouched-refl all s)
free_pages-Reaches (suc fuel) (suc n) base end ps all s f e lt h d sub =
    let more : ltb base end ≡ true = ground arith in
    let next : u64 (base + 4096) ≡ base + 4096 = omega arith in
    let (ne, small, out, _) = Distinct-push_pages n (base + 4096) (base ∷ ps) d in
    let (t, eq, free, other) = frame_free-cons s base ps h ne small out in
    let pushed = has-push_pages n (base + 4096) base (base ∷ ps) (rw ==_refl refl) in
    let one = frame_free-Untouched all base s t eq (sub base pushed) other in
    rw (more, eq, next)
      (then_Reaches one (
        free_pages-Reaches fuel n (base + 4096) end (base ∷ ps) all t (omega arith) (omega arith) lt
          free d sub))

Distinct-usable :
    (usable : ℕ) (map : List MemmapEntry) (ps : List ℕ)
    → Distinct (usable_frames usable map ps)
    → Distinct ps
unfolding usable_frames
Distinct-usable usable [] ps d = d
Distinct-usable usable (e ∷ map) ps d = elim (Bool-cases (e.type == usable)) [
  | inl y ↦
      Distinct-push_pages (e.length / 4096) e.base ps
        (Distinct-usable usable map (push_pages (e.length / 4096) e.base ps) (rw y at d))
  | inr n ↦ Distinct-usable usable map ps (rw n at d)
]

pub frames_from-Reaches :
    (usable : ℕ) (map : List MemmapEntry) (ps all : List ℕ) (s : Machine)
    → WellFormed usable map
    → HasFree s ps
    → Distinct (usable_frames usable map ps)
    → ((f : ℕ) → has f (usable_frames usable map ps) ≡ true → has f all ≡ true)
    → Reaches all s (usable_frames usable map ps) (frame_init usable map s)
unfolding frame_init usable_frames
frames_from-Reaches usable [] ps all s w h d sub = (s, refl, h, Untouched-refl all s)
frames_from-Reaches usable (e ∷ map) ps all s w h d sub = elim (Bool-cases (e.type == usable)) [
  | inl y ↦
      let pushed = push_pages (e.length / 4096) e.base ps in
      let (whole, below) = (w.0) y in
      let ends : u64 (e.base + e.length) ≡ e.base + e.length = omega arith in
      let here = Distinct-usable usable map pushed (rw y at d) in
      let sub' : (f : ℕ) → has f (usable_frames usable map pushed) ≡ true → has f all ≡ true =
        rw y at sub in
      let (t, eq, free, one) =
        free_pages-Reaches (e.length / 4096 + 2) (e.length / 4096) e.base (e.base + e.length) ps all
          s (omega arith) (omega arith) below h here
          (λ f i. sub' f (has-usable usable map f pushed i)) in
      rw (y, ends, eq)
        (then_Reaches one (frames_from-Reaches usable map pushed all t w.1 free (rw y at d) sub'))
  | inr n ↦ rw n (frames_from-Reaches usable map ps all s w.1 h (rw n at d) (rw n at sub))
]
