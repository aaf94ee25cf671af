-- ===== src/Fs/Fat16/FatSize/Ends.antt =====
-- When the loop of fat16_compute_fat_size ends, and with what.
use dos_kernel.Common.{
  ℕ, zero, suc, ◌+◌, ◌-◌, ◌*◌, ◌/◌, ◌^◌, ◌≤◌, ◌<◌, ◌≡◌, ◌≢◌, refl, true, none, some, arith, ◌⊎◌,
  inl, inr, ◌∙◌,
}
use dos_kernel.Fs.Fat16.FatSize.{
  rejects, size_loop, compute_fat_size, Swings, plain_next, Fits, accepts, Fits-accepts,
  next_size_lem,
}

-- A volume too small or too large for FAT16 when a table has `s` sectors.
abbrev OutOfRange : ℕ → ℕ → Type 0
OutOfRange t s = (t < 33 + 2 * s + 4085 * 8) ⊎ (33 + 2 * s + 65525 * 8 ≤ t)

not-Fits : (t s : ℕ) → t < 2 ^ 32 → s < 2 ^ 16 → rejects t s ≡ true → OutOfRange t s
not-Fits t s ht hs h = ground (arith, Fits-accepts t s)

-- One round of the loop: it returns 0, returns `s`, or goes on with the next size.
abbrev Round : ℕ → ℕ → ℕ → Type 0
Round f t s =
    ((size_loop (suc f) t s ≡ some 0) × OutOfRange t s)
    ⊎ ((size_loop (suc f) t s ≡ some s) × Fits t s × (plain_next t s ≡ s))
    ⊎ ((size_loop (suc f) t s ≡ size_loop f t (plain_next t s)) × Fits t s × (plain_next t s ≢ s))

round : (f t s : ℕ) → t < 2 ^ 32 → s < 2 ^ 16 → Round f t s
unfolding size_loop
round f t s ht hs = ground (arith, not-Fits t s, accepts t s, next_size_lem t s)

-- A table of `r` sectors that suits a volume of `t` sectors: a FAT16 number of clusters, whose
-- two-byte entries need exactly `r` sectors.
pub record IsTableSize (t r : ℕ) : Type 0 where
  pub fits : 33 + 2 * r ≤ t
  pub at_least : 4085 ≤ (t - (33 + 2 * r)) / 8
  pub below : (t - (33 + 2 * r)) / 8 < 65525
  pub holds : (t - (33 + 2 * r)) / 8 * 2 ≤ r * 512
  pub tight : r * 512 < (t - (33 + 2 * r)) / 8 * 2 + 512

abbrev pub Sized : ℕ → ℕ → Type 0
Sized t r = ((r ≡ 0) × ((t < 32747) ⊎ (524235 ≤ t))) ⊎ IsTableSize t r

fixed-IsTableSize : (t s : ℕ) → Fits t s → plain_next t s ≡ s → IsTableSize t s
fixed-IsTableSize t s h e = record {
  fits = omega arith;
  at_least = omega arith;
  below = omega arith;
  holds = omega arith;
  tight = omega arith;
}

-- The first size asked for is from 16 to 256, and another round moves it down by one at most.
first_range : (t : ℕ) → Fits t 1 → (16 ≤ plain_next t 1) × (plain_next t 1 ≤ 256)
first_range t h = omega arith

second_near :
    (t a : ℕ) → Fits t 1 → plain_next t 1 ≡ a → plain_next t a ≢ a → suc (plain_next t a) ≡ a
second_near t a h e ne = omega arith

two_values : (t a : ℕ) → a ≤ t → t ≤ a + 1 → (t ≡ a) ⊎ (t ≡ a + 1)
two_values t a lo hi = grind arith

third_near :
    (t s : ℕ) → 16 ≤ s → Fits t (suc s) → plain_next t (suc s) ≡ s → plain_next t s ≢ s → Swings t
third_near t s lo h e ne = (
  s,
  lo,
  omega arith,
  (let v = two_values t (2050 * s + 41) (omega arith) (omega arith) in ground (arith, v)),
)

-- The sizes on the way are near enough to give one range for the volume.
out_of_range :
    (t s : ℕ) → 1 ≤ s → s ≤ plain_next t 1 ⊎ (s ≡ 1) → OutOfRange t s → (t < 32747) ⊎ (524235 ≤ t)
out_of_range t s h b (inl low) = inl (omega arith)
out_of_range t s h b (inr high) = inr (omega arith)

abbrev Ends : ℕ → ℕ → ℕ → Type 0
Ends f t s = (r : ℕ) × (size_loop f t s ≡ some r) × Sized t r

module _ (f t : ℕ) (ht : t < 2 ^ 32) (steady : ¬ Swings t) where
  third_round :
      (s : ℕ)
      → Fits t 1
      → suc s ≡ plain_next t 1
      → Fits t (suc s)
      → plain_next t (suc s) ≡ s
      → Ends (suc f) t s
  third_round s one e h back = elim (round f t s ht (omega arith)) [
    | inl (eq, o) ↦ (0, eq, inl (refl, out_of_range t s (omega arith) (inl (omega arith)) o))
    | inr (inl (eq, h', fixed)) ↦ (s, eq, inr (fixed-IsTableSize t s h' fixed))
    | inr (inr (eq, h', moves)) ↦ absurd (steady (third_near t s (omega arith) h back moves))
  ]

  second_round : (s : ℕ) → Fits t 1 → plain_next t 1 ≡ s → Ends (suc (suc f)) t s
  second_round s one e = elim (round (suc f) t s ht (omega arith)) [
    | inl (eq, o) ↦ (0, eq, inl (refl, out_of_range t s (omega arith) (inl (omega arith)) o))
    | inr (inl (eq, h, fixed)) ↦ (s, eq, inr (fixed-IsTableSize t s h fixed))
    | inr (inr (eq, h, moves)) ↦
        let near = second_near t s one e moves in
        let (r, found, sized) =
          third_round (plain_next t s) one (omega (arith, near)) (rw near h) (rw near refl) in
        (r, eq ∙ found, sized)
  ]

-- Outside the swinging volumes four rounds are enough for fat16_compute_fat_size. It returns 0 only
-- for a volume below 32747 or from 524235 sectors on, and else a size that suits the volume.
pub compute_fat_size_ends :
    (f t : ℕ)
    → t < 2 ^ 32
    → ¬ Swings t
    → (r : ℕ) × (compute_fat_size (suc (suc (suc (suc f)))) t ≡ some r) × Sized t r
unfolding compute_fat_size
compute_fat_size_ends f t ht steady = elim (round (suc (suc (suc f))) t 1 ht (omega arith)) [
  | inl (eq, o) ↦ (0, eq, inl (refl, out_of_range t 1 (omega arith) (inr refl) o))
  | inr (inl (eq, h, fixed)) ↦ (1, eq, inr (fixed-IsTableSize t 1 h fixed))
  | inr (inr (eq, h, moves)) ↦
      let (r, found, sized) = second_round (suc f) t ht steady (plain_next t 1) h refl in
      (r, eq ∙ found, sized)
]

module _ (t k : ℕ) (ht : t < 2 ^ 32) (hk : k ≤ 255) (h : Fits t k) (h' : Fits t (suc k))
    (up : plain_next t k ≡ suc k) (down : plain_next t (suc k) ≡ k) where
  swings : (f : ℕ) → (size_loop f t k ≡ none) × (size_loop f t (suc k) ≡ none)
  unfolding size_loop
  swings zero = (refl, refl)
  swings (suc f) = ground (
    arith,
    swings f,
    Fits-accepts t k,
    Fits-accepts t (suc k),
    next_size_lem t k,
    next_size_lem t (suc k),
  )

  enters_swing : plain_next t 1 ≡ suc k → Fits t 1 → (f : ℕ) → size_loop f t 1 ≡ none
  unfolding size_loop
  enters_swing e one zero = refl
  enters_swing e one (suc f) = ground (arith, swings f, Fits-accepts t 1, next_size_lem t 1)

-- For a swinging volume the loop of fat16_compute_fat_size never ends, whatever the fuel.
pub compute_fat_size-Swings : (f t : ℕ) → Swings t → compute_fat_size f t ≡ none
unfolding compute_fat_size
compute_fat_size-Swings f t (k, lo, hi, inl e) =
    enters_swing t k (omega arith) hi (omega arith) (omega arith) (omega arith) (omega arith)
      (omega arith) (omega arith) f
compute_fat_size-Swings f t (k, lo, hi, inr e) =
    enters_swing t k (omega arith) hi (omega arith) (omega arith) (omega arith) (omega arith)
      (omega arith) (omega arith) f
