-- ===== src/Fs/Fat16/Format/Writes.antt =====
-- Runs of writes of fat16_format: rising sectors, up to the first one that fails.
use dos_kernel.Common.{
  ℕ, zero, suc, ◌+◌, ◌^◌, ◌≤◌, ◌<◌, ◌≡◌, ◌≢◌, inl, inr, refl, ap, ◌∙◌, arith, Bool, true, false,
  List, [], ◌∷◌, ◌==◌, if◌then◌else◌, Bool-cases, Run, Cmd, and_then, subst, ok, u32,
}
use native.Mathlib.Decide.{ℕ_discrete}
use dos_kernel.Fs.Fat16.Volume.{Sector}
use dos_kernel.Fs.Fat16.Boot.{blank}
use dos_kernel.Fs.Fat16.Env.{Env, History, Place, wrote}
use dos_kernel.Fs.Fat16.Format.{ahci_write, write_range}

take_then {ℓ} : {A : Type ℓ} {b : Bool} {x : A} (y : A) → b ≡ true → (if b then x else y) ≡ x
take_then y e = rw e refl

take_else {ℓ} : {A : Type ℓ} {b : Bool} (x : A) {y : A} → b ≡ false → (if b then x else y) ≡ y
take_else x e = rw e refl

-- The sectors below `n`, the highest first.
abbrev pub down : ℕ → List ℕ
down zero = []
down (suc n) = n ∷ down n

module _ (env : Env) (controller port : ℕ) (h : History) (at : ℕ → Sector) where
  abbrev place : ℕ → Place
  place lba = record { controller = controller; port = port; lba = lba }

  -- `t` is `h` and then writes of `at lba` to the sectors `lba` of a list, the latest first. The status of the last one
  -- is the last argument, and those before it are all 0.
  pub data Writes : List ℕ → History → ℕ → Type 0 where
    start : Writes [] h 0
    next :
        {lbas : List ℕ} {t : History} (lba : ℕ)
        → Writes lbas t 0
        → Writes
            (lba ∷ lbas)
            (wrote (place lba) (at lba) ∷ t)
            (env.ahci_write t (place lba) (at lba))

  -- A run that went on writing from sector `from`, up to `to` if it returns 0.
  pub record Ran (from to : ℕ) (r : Run History ℕ) : Type 0 where
    pub code : ℕ
    pub after : History
    pub n : ℕ
    pub last : ℕ
    pub runs : r ≡ ok code after
    pub writes : Writes (down n) after last
    pub above : from ≤ n
    pub upto : n ≤ to
    pub complete : code ≡ 0 → n ≡ to
    pub good : code ≡ 0 → last ≡ 0
    pub bad : code ≢ 0 → last ≢ 0

  wrote_next :
      (k : ℕ) (sector : Sector) (t : History)
      → at k ≡ sector
      → Writes (down k) t 0
      → Writes (down (suc k)) (wrote (place k) sector ∷ t) (env.ahci_write t (place k) sector)
  wrote_next k sector t e w =
      subst (λ x. Writes (down (suc k)) (wrote (place k) x ∷ t) (env.ahci_write t (place k) x)) e
        (next k w)

  settled : {lbas : List ℕ} {t : History} (x : ℕ) → x ≡ 0 → Writes lbas t x → Writes lbas t 0
  settled {lbas} {t} x e w = subst (λ y. Writes lbas t y) e w

  range_step :
      (code rounds base j k : ℕ) (t : History)
      → u32 (base + j) ≡ k
      → write_range env controller port code (suc rounds) base j blank t ≡ (
          if env.ahci_write t (place k) blank == 0
          then write_range env controller port code rounds base
              (j + 1)
              blank
              (wrote (place k) blank ∷ t)
          else ok code (wrote (place k) blank ∷ t))
  unfolding write_range ahci_write
  range_step code rounds base j k t e = rw e (ground arith)

  pub range-Ran :
      (code rounds base j k : ℕ) (t : History)
      → code ≢ 0
      → base + j ≡ k
      → k + rounds < 2 ^ 32
      → ((j : ℕ) → k ≤ j → at j ≡ blank)
      → Writes (down k) t 0
      → Ran k (k + rounds) (write_range env controller port code rounds base j blank t)
  unfolding write_range
  range-Ran code zero base j k t nc e lt blanks w = record {
    code = 0;
    after = t;
    n = k;
    last = 0;
    runs = refl;
    writes = w;
    above = omega arith;
    upto = omega arith;
    complete = λ z. omega arith;
    good = λ z. refl;
    bad = λ b. absurd (b refl);
  }
  range-Ran code (suc rounds) base j k t nc e lt blanks w =
      let step = range_step code rounds base j k t (omega arith) in
      let w' = wrote_next k blank t (blanks k (omega arith)) w in
      elim (Bool-cases (env.ahci_write t (place k) blank == 0)) [
        | inl good ↦
            let ih =
              range-Ran code rounds base (j + 1) (suc k) (wrote (place k) blank ∷ t) nc
                (omega arith) (omega arith) (λ i l. blanks i (omega arith))
                (settled _ (ground arith) w') in
            record {
              code = ih.code;
              after = ih.after;
              n = ih.n;
              last = ih.last;
              runs = step ∙ take_then _ good ∙ ih.runs;
              writes = ih.writes;
              above = omega (arith, ih.above);
              upto = omega (arith, ih.upto);
              complete = λ z. omega (arith, ih.complete z);
              good = ih.good;
              bad = ih.bad;
            }
        | inr failed ↦ record {
          code = code;
          after = wrote (place k) blank ∷ t;
          n = suc k;
          last = env.ahci_write t (place k) blank;
          runs = step ∙ take_else _ failed;
          writes = w';
          above = omega arith;
          upto = omega arith;
          complete = λ z. absurd (nc z);
          good = λ z. absurd (nc z);
          bad = λ b. ground arith;
        }
      ]

  -- A run behind a run: what comes after a code 0 goes on where it stopped.
  pub then-Ran :
      (from mid to : ℕ) (r : Run History ℕ) (k : ℕ → Cmd History ℕ)
      → mid ≤ to
      → (first : Ran from mid r) → ((first.code ≡ 0) → Ran mid to (k first.code first.after))
      → ((first.code ≢ 0) → (c : ℕ) × (c ≢ 0) × (k first.code first.after ≡ ok c first.after))
      → Ran from to (and_then r k)
  then-Ran from mid to r k le first good bad = elim (ℕ_discrete first.code 0) [
    | yes z ↦
        let second = good z in
        record {
          code = second.code;
          after = second.after;
          n = second.n;
          last = second.last;
          runs = ap (λ (x : Run History ℕ). and_then x k) first.runs ∙ second.runs;
          writes = second.writes;
          above = omega (arith, first.above, first.upto, second.above);
          upto = second.upto;
          complete = second.complete;
          good = second.good;
          bad = second.bad;
        }
    | no nz ↦
        let (c, nc, stops) = bad nz in
        record {
          code = c;
          after = first.after;
          n = first.n;
          last = first.last;
          runs = ap (λ (x : Run History ℕ). and_then x k) first.runs ∙ stops;
          writes = first.writes;
          above = first.above;
          upto = omega (arith, first.upto);
          complete = λ z. absurd (nc z);
          good = λ z. absurd (nc z);
          bad = λ b. first.bad nz;
        }
  ]

  -- One sector; its status is the code.
  pub write-Ran :
      (k : ℕ) (sector : Sector) (t : History)
      → at k ≡ sector
      → Writes (down k) t 0
      → Ran k (suc k) (ahci_write env controller port k sector t)
  unfolding ahci_write
  write-Ran k sector t e w = record {
    code = env.ahci_write t (place k) sector;
    after = wrote (place k) sector ∷ t;
    n = suc k;
    last = env.ahci_write t (place k) sector;
    runs = refl;
    writes = wrote_next k sector t e w;
    above = omega arith;
    upto = omega arith;
    complete = λ z. refl;
    good = λ z. z;
    bad = λ b. b;
  }

  pub writes_at :
      {from mid : ℕ} {r : Run History ℕ} (first : Ran from mid r)
      → first.code ≡ 0
      → Writes (down mid) first.after 0
  writes_at first z =
      subst (λ x. Writes (down x) first.after 0) (first.complete z)
        (settled first.last (first.good z) first.writes)

  pub status_zero : (x : ℕ) → x ≡ 0 → (x == 0) ≡ true
  status_zero x e = ground arith

  pub status_bad : (x : ℕ) → x ≢ 0 → (x == 0) ≡ false
  status_bad x e = ground arith
