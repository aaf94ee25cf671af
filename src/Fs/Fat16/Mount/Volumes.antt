-- ===== src/Fs/Fat16/Mount/Volumes.antt =====
-- The list of volumes in order, and the frames and blocks that a history holds.
use dos_kernel.Common.{
  ℕ, ◌≤◌, ◌≡◌, ◌≢◌, inl, inr, refl, sym, ap, ap₂, ◌∙◌, arith, false, none, List, [], ◌∷◌, ◌++◌,
  ◌==◌, if◌then◌else◌, Bool-cases, ==_refl, ok, All, length,
}
use dos_kernel.Fs.Fat16.Volume.{Fat, fat16_validate}
use dos_kernel.Fs.Fat16.Env.{Env, History, took_frame, gave_frame, took_block, gave_block}
use dos_kernel.Fs.Fat16.Mount.{Mounts, find_vol_id, make_ready}

-- The records that are held are valid and no two have one id; the size is their number.
abbrev pub Unique : List (ℕ × Fat) → Type 0
Unique [] = Unit
Unique ((n, f) ∷ rest) = (find_vol_id f.ebr.vol_id rest ≡ none) × Unique rest

abbrev pub AllValid : List (ℕ × Fat) → Type 0
AllValid = All (λ v. fat16_validate v.1 ≡ 0)

pub record IsMounts (s : Mounts) : Type 0 where
  pub counted : s.size ≡ length s.volumes
  pub valid : AllValid s.volumes
  pub unique : Unique s.volumes
  pub fresh : s.ready ≡ 0 → s.volumes ≡ []
  pub flag : s.ready ≤ 1

pub valid_snoc :
    (vs : List (ℕ × Fat)) (n : ℕ) (f : Fat)
    → AllValid vs
    → fat16_validate f ≡ 0
    → AllValid (vs ++ (n, f) ∷ [])
valid_snoc [] n f h e = (e, tt)
valid_snoc (v ∷ vs) n f (h, hs) e = (h, valid_snoc vs n f hs e)

pub find_snoc :
    (id : ℕ) (vs : List (ℕ × Fat)) (n : ℕ) (f : Fat)
    → find_vol_id id vs ≡ none
    → f.ebr.vol_id ≢ id
    → find_vol_id id (vs ++ (n, f) ∷ []) ≡ none
unfolding find_vol_id
find_snoc id [] n f h ne = ground arith
find_snoc id ((m, g) ∷ vs) n f h ne = ground (arith, find_snoc id vs n f)

pub absent_ne :
    (id : ℕ) (m : ℕ) (g : Fat) (vs : List (ℕ × Fat))
    → find_vol_id id ((m, g) ∷ vs) ≡ none
    → (g.ebr.vol_id ≢ id) × (find_vol_id id vs ≡ none)
unfolding find_vol_id
absent_ne id m g vs h = ground arith

pub Unique-snoc :
    (vs : List (ℕ × Fat)) (n : ℕ) (f : Fat)
    → Unique vs
    → find_vol_id f.ebr.vol_id vs ≡ none
    → Unique (vs ++ (n, f) ∷ [])
unfolding find_vol_id
Unique-snoc [] n f u h = (refl, tt)
Unique-snoc ((m, g) ∷ vs) n f (u, us) h =
    let (ne, rest) = absent_ne f.ebr.vol_id m g vs h in
    (find_snoc g.ebr.vol_id vs n f u (λ e. ne (sym e)), Unique-snoc vs n f us rest)

-- The frames and blocks that a history holds: taken and not given back, the latest first.
unfoldable pub erase : ℕ → List ℕ → List ℕ
erase p [] = []
erase p (q ∷ rest) = if p == q then rest else q ∷ erase p rest

unfoldable pub open_frames : History → List ℕ
open_frames [] = []
open_frames (took_frame p ∷ h) = p ∷ open_frames h
open_frames (gave_frame p ∷ h) = erase p (open_frames h)
open_frames (_ ∷ h) = open_frames h

unfoldable pub open_blocks : History → List ℕ
open_blocks [] = []
open_blocks (took_block p ∷ h) = p ∷ open_blocks h
open_blocks (gave_block p ∷ h) = erase p (open_blocks h)
open_blocks (_ ∷ h) = open_blocks h

pub erase_head : (p : ℕ) (l : List ℕ) → erase p (p ∷ l) ≡ l
unfolding erase
erase_head p l = rw (==_refl p) refl

pub erase_second : (p q : ℕ) (l : List ℕ) → erase p (q ∷ p ∷ l) ≡ q ∷ l
unfolding erase
erase_second p q l = ground (arith, ==_refl p)

pub ready-one : (r : ℕ) → r ≤ 1 → r == 0 ≡ false → r ≡ 1
ready-one r le e = ground arith

pub make_ready_lem :
    (env : Env) (controller port : ℕ) (s : Mounts)
    → IsMounts s
    → make_ready env controller port s ≡ ok tt (record s { ready = 1 })
unfolding make_ready
make_ready_lem env controller port s inv = elim (Bool-cases (s.ready == 0)) [
  | inl e ↦
      let empty = inv.fresh (ground (arith, e)) in
      rw e (
        ap₂ (λ vs n. ok tt (record s { volumes = vs; size = n; ready = 1 })) (sym empty)
          (sym (inv.counted ∙ ap length empty)))
  | inr e ↦ rw e (ap (λ r. ok tt (record s { ready = r })) (ready-one s.ready inv.flag e))
]
