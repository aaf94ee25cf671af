-- ===== src/Memory/Frame/FreeList.antt =====
-- The free list as a list of frames: what frame_alloc and frame_free do to it.
use dos_kernel.Common.{
  ℕ, ◌^◌, ◌<◌, ◌≡◌, ◌≢◌, refl, ap, arith, List, [], ◌∷◌, Bool, true, false, ◌==◌, ◌||◌, ok, ==_refl,
  Run,
}
use dos_kernel.Memory.Machine.{Machine, Memory, write, phys_virt}
use dos_kernel.Memory.Frame.{frame_alloc, frame_free}

abbrev pub has : ℕ → List ℕ → Bool
has a [] = false
has a (p ∷ ps) = (a == p) || has a ps

-- From `p` the words at the frames lead through the distinct frames `ps` to 0.
pub data IsFreeList (o : ℕ) (m : Memory) : ℕ → List ℕ → Type 0 where
  nil : IsFreeList o m 0 []
  cons :
      {p : ℕ} {ps : List ℕ}
      → p ≢ 0
      → p < 2 ^ 64
      → has p ps ≡ false
      → IsFreeList o m (m (phys_virt o p)) ps
      → IsFreeList o m p (p ∷ ps)

-- The window of physical memory tells frames apart.
pub phys_virt_inj : (o p q : ℕ) → p < 2 ^ 64 → q < 2 ^ 64 → phys_virt o p ≡ phys_virt o q → p ≡ q
unfolding phys_virt
phys_virt_inj o p q hp hq e = omega arith

module _ {o : ℕ} {m : Memory} where
  -- A list survives a change of memory that spares its frames.
  pub frame :
      {g : Memory} {p : ℕ} {ps : List ℕ}
      → IsFreeList o m p ps
      → ((a : ℕ) → has a ps ≡ true → a < 2 ^ 64 → g (phys_virt o a) ≡ m (phys_virt o a))
      → IsFreeList o g p ps
  frame nil same = nil
  frame {g} (cons {p} {ps} ne lt out rest) same =
      let here : g (phys_virt o p) ≡ m (phys_virt o p) = same p (ground arith) lt in
      cons ne lt out (rw here (frame rest λ a i l. same a (ground arith) l))

-- The frames `ps` are free in the state `s`.
abbrev pub HasFree : Machine → List ℕ → Type 0
HasFree s ps = IsFreeList s.offset s.mem s.page_list ps

pub record Head (o : ℕ) (m : Memory) (p q : ℕ) (ps : List ℕ) : Type 0 where
  pub same : p ≡ q
  pub ne_zero : p ≢ 0
  pub in_range : p < 2 ^ 64
  pub distinct : has p ps ≡ false
  pub rest : IsFreeList o m (m (phys_virt o p)) ps

pub Head-of :
    {o : ℕ} {m : Memory} {p q : ℕ} {ps : List ℕ} → IsFreeList o m p (q ∷ ps) → Head o m p q ps
Head-of (cons ne lt out rest) = record {
  same = refl;
  ne_zero = ne;
  in_range = lt;
  distinct = out;
  rest = rest;
}

pub head_of_nil : {o : ℕ} {m : Memory} {p : ℕ} → IsFreeList o m p [] → p ≡ 0
head_of_nil nil = refl

-- The outcome of frame_alloc when the frames `ps` are free.
abbrev pub Allocated : Machine → List ℕ → Run Machine ℕ → Type 0
Allocated s [] r = r ≡ ok 0 s
Allocated s (p ∷ ps) r =
    (next : ℕ) × (r ≡ ok p (record s { page_list = next }))
    × IsFreeList s.offset s.mem next ps
    × (p ≢ 0)
    × (p < 2 ^ 64)
    × (has p ps ≡ false)

nonzero : (s : Machine) → s.page_list ≢ 0 → (s.page_list == 0) ≡ false
nonzero s h = ground arith

pub has_ne : (a p : ℕ) (ps : List ℕ) → has a ps ≡ true → has p ps ≡ false → a ≢ p
has_ne a p ps i o e = cc (ap (λ (x : ℕ). has x ps) e)

other_word :
    (s : Machine) (a p : ℕ)
    → (phys_virt s.offset a ≡ phys_virt s.offset p → a ≡ p)
    → a ≢ p
    → write s.mem (phys_virt s.offset p) s.page_list (phys_virt s.offset a)
      ≡ s.mem (phys_virt s.offset a)
other_word s a p inj ne = ground (arith, inj)

-- frame_alloc takes the first free frame off the list, which holds the other frames after it, and
-- changes nothing else; with no free frame it returns 0 and changes nothing.
pub frame_alloc-Allocated :
    (s : Machine) (ps : List ℕ) → HasFree s ps → Allocated s ps (frame_alloc s)
unfolding frame_alloc
frame_alloc-Allocated s [] h = let e = head_of_nil h in rw e refl
frame_alloc-Allocated s (p ∷ ps) h =
    let r = Head-of h in
    rw (nonzero s (λ e. r.ne_zero e)) (
      s.mem (phys_virt s.offset s.page_list),
      ap (λ (x : ℕ). ok x (record s { page_list = s.mem (phys_virt s.offset s.page_list) })) r.same,
      r.rest,
      rw (← r.same) r.ne_zero,
      rw (← r.same) r.in_range,
      rw (← r.same) r.distinct,
    )

-- frame_free puts a frame that is not free in front of the free ones, and writes only the first word
-- of that frame.
pub frame_free-cons :
    (s : Machine) (p : ℕ) (ps : List ℕ)
    → HasFree s ps
    → p ≢ 0
    → p < 2 ^ 64
    → has p ps ≡ false
    → (t : Machine) × (frame_free p s ≡ ok tt t)
      × HasFree t (p ∷ ps)
      × ((a : ℕ) → a ≢ phys_virt s.offset p → t.mem a ≡ s.mem a)
unfolding frame_free
frame_free-cons s p ps h ne lt out = (
  record s { mem = write s.mem (phys_virt s.offset p) s.page_list; page_list = p },
  refl,
  cons ne lt out (
      rw ==_refl (
        frame h λ a i l. other_word s a p (phys_virt_inj s.offset a p l lt) (has_ne a p ps i out))),
  λ a h. ground arith,
)
