-- ===== src/Logging/Printk/Rows.antt =====
-- The rows of the log, and how the text of print_loop makes them up.
use dos_kernel.Common.{
  ℕ, zero, suc, ◌≤◌, ◌≡◌, ◌≢◌, refl, sym, ap, ◌∙◌, arith, Bool, true, false, not, ◌&&◌, List, [],
  ◌∷◌, ◌++◌, length, ◌==◌, if◌then◌else◌, Bool-cases, inl, inr, get_or, All,
}
use dos_kernel.Logging.Printk.{level_color, level_prefix, ansi_reset, newline, carriage_return}
use dos_kernel.Logging.Printk.Buffer.{take}

abbrev pub banner : ℕ → List ℕ
banner k = get_or level_color k [] ++ (get_or level_prefix k [] ++ ansi_reset)

-- A row of the log: it starts at the left with the banner and ends with a newline.
abbrev pub row : ℕ → List ℕ → List ℕ
row k line = carriage_return ∷ (banner k ++ (line ++ (newline ∷ [])))

-- The lines of a text: the first one and the others.
abbrev pub lines : List ℕ → List ℕ × List (List ℕ)
lines [] = ([], [])
lines (c ∷ cs) =
    let (line, others) = lines cs in
    if c == newline then ([], line ∷ others) else (c ∷ line, others)

-- The lines after the first one. A text that ends with a newline ends with an empty line, which gets no banner.
abbrev pub more_rows : ℕ → List (List ℕ) → List ℕ
more_rows k [] = []
more_rows k ([] ∷ []) = newline ∷ []
more_rows k ((c ∷ cs) ∷ []) = row k (c ∷ cs)
more_rows k (line ∷ (next ∷ others)) = row k line ++ more_rows k (next ∷ others)

abbrev pub rows : ℕ → List ℕ → List ℕ
rows k text = let (line, others) = lines text in row k line ++ more_rows k others

-- A text without NUL.
abbrev pub Plain : List ℕ → Type 0
Plain = All (λ c. c ≢ 0)

pub ++_assoc : (xs ys zs : List ℕ) → (xs ++ ys) ++ zs ≡ xs ++ (ys ++ zs)
++_assoc [] ys zs = refl
++_assoc (x ∷ xs) ys zs = ap (λ l. x ∷ l) (++_assoc xs ys zs)

pub ++_nil : (xs : List ℕ) → xs ++ [] ≡ xs
++_nil [] = refl
++_nil (x ∷ xs) = ap (λ l. x ∷ l) (++_nil xs)

-- The text as print_loop writes it.
abbrev pub head_or : List ℕ → ℕ → ℕ
head_or [] d = d
head_or (c ∷ cs) d = c

abbrev pub breaks : ℕ → List ℕ → Bool
breaks c cs = c == newline && not (head_or cs 0 == 0)

abbrev pub shown : ℕ → List ℕ → List ℕ
shown k [] = []
shown k (c ∷ cs) =
    let rest = shown k cs in
    if breaks c cs then newline ∷ (carriage_return ∷ (banner k ++ rest)) else c ∷ rest

head_nonzero : (c : ℕ) → c ≢ 0 → (c == 0) ≡ false
head_nonzero c nz = ground arith

-- A line that other text follows gets its row.
more_rows-line :
    (k d : ℕ) (ds : List ℕ)
    → let (line, others) = lines (d ∷ ds) in
      more_rows k (line ∷ others) ≡ row k line ++ more_rows k others
more_rows-line k d ds = elim (Bool-cases (d == newline)) [
  | inl nl ↦ rw nl refl
  | inr other ↦ rw other (alone (lines ds).1)
]
  where
    alone :
        (others : List (List ℕ))
        → more_rows k ((d ∷ (lines ds).0) ∷ others) ≡ row k (d ∷ (lines ds).0) ++ more_rows k others
    alone [] = sym (++_nil (row k (d ∷ (lines ds).0)))
    alone (next ∷ others) = refl

regroup :
    (k : ℕ) (line more : List ℕ)
    → row k line ++ more ≡ carriage_return ∷ (banner k ++ (line ++ (newline ∷ more)))
regroup k line more =
    ap (λ l. carriage_return ∷ l)
      (++_assoc (banner k) (line ++ (newline ∷ [])) more
        ∙ ap (λ l. banner k ++ l) (++_assoc line (newline ∷ []) more))

shown-lines :
    (k : ℕ) (cs : List ℕ)
    → Plain cs
    → shown k cs ++ (newline ∷ []) ≡ (lines cs).0 ++ (newline ∷ more_rows k (lines cs).1)
shown-lines k [] plain = refl
shown-lines k (c ∷ cs) (nz, plain) = elim (Bool-cases (c == newline)) [
  | inl nl ↦ after_newline cs nl plain (shown-lines k cs plain)
  | inr other ↦ rw other (ap (λ l. c ∷ l) (shown-lines k cs plain))
]
  where
    after_newline :
        (cs : List ℕ)
        → (c == newline) ≡ true
        → Plain cs
        → shown k cs ++ (newline ∷ []) ≡ (lines cs).0 ++ (newline ∷ more_rows k (lines cs).1)
        → shown k (c ∷ cs) ++ (newline ∷ [])
          ≡ (lines (c ∷ cs)).0 ++ (newline ∷ more_rows k (lines (c ∷ cs)).1)
    after_newline [] nl plain ih = let e : c ≡ newline = ground arith in rw e refl
    after_newline (d ∷ ds) nl (nz, plain) ih =
        rw (nl, head_nonzero d nz, more_rows-line k d ds)
          (ap (λ l. newline ∷ (carriage_return ∷ l))
              (++_assoc (banner k) (shown k (d ∷ ds)) (newline ∷ []) ∙ ap (λ l. banner k ++ l) ih)
            ∙ ap (λ l. newline ∷ l)
                (sym (regroup k (lines (d ∷ ds)).0 (more_rows k (lines (d ∷ ds)).1))))

-- The text as print_loop writes it, with a banner in front and a newline behind, makes the rows.
pub shown-rows :
    (k : ℕ) (cs : List ℕ)
    → Plain cs
    → carriage_return ∷ (banner k ++ (shown k cs ++ (newline ∷ []))) ≡ rows k cs
shown-rows k cs plain =
    ap (λ l. carriage_return ∷ (banner k ++ l)) (shown-lines k cs plain)
    ∙ sym (regroup k (lines cs).0 (more_rows k (lines cs).1))

pub take-all : (n : ℕ) (xs : List ℕ) → length xs ≤ n → take n xs ≡ xs
take-all zero [] h = refl
take-all zero (x ∷ xs) h = absurd (omega arith)
take-all (suc n) [] h = refl
take-all (suc n) (x ∷ xs) h = ap (λ l. x ∷ l) (take-all n xs (omega arith))

cons_ne : (x : List ℕ) (xs : List (List ℕ)) → x ∷ xs ≢ []
cons_ne x xs e = cc e

-- A text of one line is that line.
pub lines-one : (xs : List ℕ) → (lines xs).1 ≡ [] → (lines xs).0 ≡ xs
lines-one [] e = refl
lines-one (c ∷ cs) e = elim (Bool-cases (c == newline)) [
  | inl nl ↦ absurd (cons_ne (lines cs).0 (lines cs).1 (rw nl at e))
  | inr other ↦ rw other (ap (λ l. c ∷ l) (lines-one cs (rw other at e)))
]
