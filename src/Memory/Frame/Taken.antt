-- ===== src/Memory/Frame/Taken.antt =====
-- Frames that a loop of the kernel takes from the free list of frame.c, one in each round.
use dos_kernel.Common.{
  ℕ, zero, suc, ◌<◌, ◌≡◌, ◌≢◌, refl, sym, arith, true, false, List, ◌∷◌, ==_refl,
}
use dos_kernel.Memory.Frame.FreeList.{has, has_ne}

-- All frames of the list `spare` are frames of `ps`.
abbrev pub Within : List ℕ → List ℕ → Type 0
Within spare ps = (q : ℕ) → has q spare ≡ true → has q ps ≡ true

pub Within-cons : (f : ℕ) (spare ps : List ℕ) → Within spare ps → Within spare (f ∷ ps)
Within-cons f spare ps inside q h = ground (arith, inside q h)

-- The first `n` of `frames` are frames of `ps`, pairwise distinct, and none of them is left in `spare`.
pub record Takes (n : ℕ) (frames : ℕ → ℕ) (ps spare : List ℕ) : Type 0 where
  pub fresh : (i : ℕ) → i < n → has (frames i) ps ≡ true
  pub distinct : (i j : ℕ) → i < j → j < n → frames i ≢ frames j
  pub gone : (i : ℕ) → i < n → has (frames i) spare ≡ false
  pub within : Within spare ps

-- `f`, and then `frames`.
abbrev pub then_frames : ℕ → (ℕ → ℕ) → ℕ → ℕ
then_frames f frames zero = f
then_frames f frames (suc i) = frames i

pub Takes-nil : (frames : ℕ → ℕ) (ps : List ℕ) → Takes 0 frames ps ps
Takes-nil frames ps = record {
  fresh = λ i h. absurd (omega arith);
  distinct = λ i j h k. absurd (omega arith);
  gone = λ i h. absurd (omega arith);
  within = λ q h. h;
}

pub Takes-cons :
    {n f : ℕ} {frames : ℕ → ℕ} {ps left spare : List ℕ}
    → has f ps ≡ false
    → Within left ps
    → Takes n frames left spare
    → Takes (suc n) (then_frames f frames) (f ∷ ps) spare
Takes-cons {n} {f} {frames} {ps} {left} {spare} out inside more = record {
  fresh = fresh;
  distinct = distinct;
  gone = gone;
  within = λ q h. Within-cons f left ps inside q (more.within q h);
}
  where
    fresh : (i : ℕ) → i < suc n → has (then_frames f frames i) (f ∷ ps) ≡ true
    fresh zero h = rw ==_refl refl
    fresh (suc i) h = Within-cons f left ps inside (frames i) (more.fresh i (omega arith))

    distinct : (i j : ℕ) → i < j → j < suc n → then_frames f frames i ≢ then_frames f frames j
    distinct i zero h k = absurd (omega arith)
    distinct zero (suc j) h k = λ e.
        let in_ps = inside (frames j) (more.fresh j (omega arith)) in
        has_ne (frames j) f ps in_ps out (sym e)
    distinct (suc i) (suc j) h k = more.distinct i j (omega arith) (omega arith)

    gone : (i : ℕ) → i < suc n → has (then_frames f frames i) spare ≡ false
    gone zero h = ground (arith, out, more.within f, inside f)
    gone (suc i) h = more.gone i (omega arith)

-- A frame that is taken besides.
pub Takes-tail :
    {n f : ℕ} {frames : ℕ → ℕ} {ps spare : List ℕ}
    → Takes n frames ps (f ∷ spare)
    → Takes n frames ps spare
Takes-tail {f} taken = record {
  fresh = taken.fresh;
  distinct = taken.distinct;
  gone = λ i h. ground (arith, taken.gone i h);
  within = λ q h. taken.within q (ground arith);
}
