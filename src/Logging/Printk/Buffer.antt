-- ===== src/Logging/Printk/Buffer.antt =====
-- The buffer of vprintk_level: the first 1023 bytes of a text, with a NUL behind them.
use dos_kernel.Common.{
  ℕ, zero, suc, ◌+◌, ◌-◌, ◌≤◌, ◌<◌, ◌≡◌, refl, ◌∙◌, arith, false, List, [], ◌∷◌, length, ltb, ◌==◌,
  if◌then◌else◌, Bool-cases, inl, inr,
}
use dos_kernel.Logging.Printk.{Log, buf_write_char, fill_buffer}

-- A writer called on each byte of a text in turn.
abbrev pub each : {S : Type 0} → (ℕ → S → S) → List ℕ → S → S
each w [] s = s
each w (c ∷ cs) s = each w cs (w c s)

abbrev pub take : ℕ → List ℕ → List ℕ
take zero xs = []
take (suc n) [] = []
take (suc n) (x ∷ xs) = x ∷ take n xs

-- From `i` on the buffer holds these bytes.
abbrev Part : (ℕ → ℕ) → ℕ → List ℕ → Type 0
Part b i [] = Unit
Part b i (x ∷ xs) = (b i ≡ x) × Part b (i + 1) xs

-- And a NUL behind them.
abbrev pub Holds : (ℕ → ℕ) → ℕ → List ℕ → Type 0
Holds b i [] = b i ≡ 0
Holds b i (x ∷ xs) = (b i ≡ x) × Holds b (i + 1) xs

Part-Holds :
    (b : ℕ → ℕ) (i p : ℕ) (xs : List ℕ)
    → Part b i xs
    → p ≡ i + length xs
    → Holds (λ j. if j == p then 0 else b j) i xs
Part-Holds b i p [] part e = ground arith
Part-Holds b i p (x ∷ xs) (here, part) e =
    (ground arith, Part-Holds b (i + 1) p xs part (omega arith))

full_lem :
    {T : Type 0} (text : List ℕ) (s : Log T) → s.fmt_buf_pos ≡ 1023 → each buf_write_char text s ≡ s
unfolding buf_write_char
full_lem [] s e = refl
full_lem (c ∷ cs) s e =
    let full : ltb s.fmt_buf_pos 1023 ≡ false = ground arith in rw full (full_lem cs s e)

-- The buffer after a text went to it from the position `p` on.
record Filled {T : Type 0} (xs : List ℕ) (p : ℕ) (s t : Log T) : Type 0 where
  position : t.fmt_buf_pos ≡ p + length xs
  part : Part t.fmt_buf p xs
  before : (i : ℕ) → i < p → t.fmt_buf i ≡ s.fmt_buf i
  same_terminal : t.terminal ≡ s.terminal

each-Filled :
    {T : Type 0} (text : List ℕ) (p : ℕ) (s : Log T)
    → s.fmt_buf_pos ≡ p
    → p ≤ 1023
    → Filled (take (1023 - p) text) p s (each buf_write_char text s)
unfolding buf_write_char
each-Filled [] p s e h =
    let none : take (1023 - p) [] ≡ [] = take_nil (1023 - p) in
    rw none
      (record { position = omega arith; part = tt; before = λ i l. refl; same_terminal = refl })
  where
    take_nil : (n : ℕ) → take n [] ≡ []
    take_nil zero = refl
    take_nil (suc n) = refl
each-Filled (c ∷ cs) p s e h = elim (Bool-cases (ltb p 1023)) [
  | inl room ↦
      let next : 1023 - p ≡ suc (1023 - (p + 1)) = ground arith in
      let s' = record s { fmt_buf = λ i. if i == p then c else s.fmt_buf i; fmt_buf_pos = p + 1 } in
      let f = each-Filled cs (p + 1) s' refl (ground arith) in
      rw (e, room, next)
        (record {
          position = f.position ∙ omega arith;
          part = (f.before p (omega arith) ∙ ground arith, f.part);
          before = λ i l. f.before i (omega arith) ∙ ground arith;
          same_terminal = f.same_terminal;
        })
  | inr full ↦
      let at : p ≡ 1023 = ground arith in
      let left : 1023 - p ≡ 0 = omega arith in
      rw (left, full_lem (c ∷ cs) s (e ∙ at))
        (record { position = omega arith; part = tt; before = λ i l. refl; same_terminal = refl })
]

-- fill_buffer leaves the first 1023 bytes of the text in the buffer and the terminal as it was.
pub record Buffered {T : Type 0} (text : List ℕ) (s t : Log T) : Type 0 where
  pub position : t.fmt_buf_pos ≡ length (take 1023 text)
  pub holds : Holds t.fmt_buf 0 (take 1023 text)
  pub same_terminal : t.terminal ≡ s.terminal

pub fill_buffer-Buffered :
    {T Args : Type 0} (format : (ℕ → Log T → Log T) → List ℕ → Args → Log T → Log T) (fmt : List ℕ)
    (ap' : Args) (text : List ℕ) (s : Log T)
    → ((w : ℕ → Log T → Log T) (t : Log T) → format w fmt ap' t ≡ each w text t)
    → Buffered text s (fill_buffer format fmt ap' s)
unfolding fill_buffer
fill_buffer-Buffered format fmt ap' text s writes =
    let s' = record s { fmt_buf_pos = 0 } in
    let f = each-Filled text 0 s' refl (omega arith) in
    rw (writes buf_write_char s') (record {
      position = f.position ∙ omega arith;
      holds = Part-Holds _ 0 _ (take 1023 text) f.part f.position;
      same_terminal = f.same_terminal;
    })
