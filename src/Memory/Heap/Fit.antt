-- ===== src/Memory/Heap/Fit.antt =====
-- What first fit finds: a block with the wanted bytes that lies, as all blocks that are left, in the old blocks
-- and apart from the others.
use dos_kernel.Common.{
  ℕ, ◌+◌, ◌^◌, ◌≤◌, ◌<◌, ◌≢◌, inl, inr, arith, List, [], ◌∷◌, Option, none, some, Bool-cases, leb,
}
use dos_kernel.Memory.Machine.{Memory}
use dos_kernel.Memory.Heap.Blocks.{
  ApartAll, ApartAll-within, IsBlocks, First-of, Outside, is_whole, taken_size, remainder, Fit,
  first_fit, keep_block,
}

abbrev pub Whenever : (Fit → Type 0) → Option Fit → Type 0
Whenever P none = Unit
Whenever P (some f) = P f

pub Whenever-keep :
    (P Q : Fit → Type 0) (b : ℕ × ℕ)
    → ((q k : ℕ) (rest : List (ℕ × ℕ)) → P (q, k, rest) → Q (q, k, b ∷ rest))
    → (o : Option Fit) → Whenever P o
    → Whenever Q (keep_block b o)
Whenever-keep P Q b f none h = tt
Whenever-keep P Q b f (some (q, k, rest)) h = f q k rest h

pub ApartAll-remainder :
    (want p n q k : ℕ) (bs : List (ℕ × ℕ))
    → ApartAll p n ((q, k) ∷ bs)
    → ApartAll p n (remainder want q k bs)
ApartAll-remainder want p n q k bs (one, more) = elim (Bool-cases (is_whole want k)) [
  | inl e ↦ rw e more
  | inr e ↦ let big : want + 40 ≤ k = ground arith in rw e (omega arith, more)
]

pub taken_le : (want n : ℕ) → want ≤ n → (taken_size want n ≤ n) × (want ≤ taken_size want n)
taken_le want n fit = ground arith

-- The block that is taken does not meet what is left of it.
pub taken_apart :
    (want c n : ℕ) (bs : List (ℕ × ℕ))
    → want ≤ n
    → ApartAll c n bs
    → ApartAll c (taken_size want n) (remainder want c n bs)
taken_apart want c n bs fit apart = elim (Bool-cases (is_whole want n)) [
  | inl e ↦ rw e apart
  | inr e ↦
      let big : want + 40 ≤ n = ground arith in
      rw e (omega arith, ApartAll-within c n c want bs (omega arith) (omega arith) apart)
]

-- What is apart from all the blocks is apart from the taken one and from those that are left.
pub first_fit-ApartAll :
    (want x y : ℕ) (bs : List (ℕ × ℕ))
    → ApartAll x y bs
    → Whenever (λ (q, k, rest). ApartAll x y ((q, k) ∷ rest)) (first_fit want bs)
unfolding first_fit
first_fit-ApartAll want x y [] apart = tt
first_fit-ApartAll want x y ((p, n) ∷ bs) (one, more) = elim (Bool-cases (leb want n)) [
  | inl e ↦
      let fit : want ≤ n = ground arith in
      let le = taken_le want n fit in
      rw e (omega arith, ApartAll-remainder want x y p n bs (one, more))
  | inr e ↦ rw e (
      Whenever-keep (λ (q, k, rest). ApartAll x y ((q, k) ∷ rest))
        (λ (q, k, rest). ApartAll x y ((q, k) ∷ rest)) (p, n)
        (λ q k rest (first, others). (first, (one, others))) (first_fit want bs)
        (first_fit-ApartAll want x y bs more))
]

-- An address outside of all the blocks is outside of the taken one and of those that are left.
pub first_fit-Outside :
    (want a : ℕ) (bs : List (ℕ × ℕ))
    → Outside a bs
    → Whenever (λ (q, k, rest). Outside a ((q, k) ∷ rest)) (first_fit want bs)
unfolding first_fit
first_fit-Outside want a [] out = tt
first_fit-Outside want a ((p, n) ∷ bs) (one, more) = elim (Bool-cases (leb want n)) [
  | inl e ↦
      let fit : want ≤ n = ground arith in
      let le = taken_le want n fit in
      rw e (
        omega arith,
        elim (Bool-cases (is_whole want n)) [
          | inl w ↦ rw w more
          | inr w ↦ let big : want + 40 ≤ n = ground arith in rw w (omega arith, more)
        ],
      )
  | inr e ↦ rw e (
      Whenever-keep (λ (q, k, rest). Outside a ((q, k) ∷ rest))
        (λ (q, k, rest). Outside a ((q, k) ∷ rest)) (p, n)
        (λ q k rest (first, others). (first, (one, others))) (first_fit want bs)
        (first_fit-Outside want a bs more))
]

-- A taken block: it has the wanted bytes and a proper place, and the blocks that are left are apart from it.
pub record Suits (want : ℕ) (f : Fit) : Type 0 where
  pub fits : want ≤ f.1
  pub ne_zero : f.0 ≢ 0
  pub in_range : f.0 + 24 + f.1 < 2 ^ 64
  pub apart : ApartAll f.0 f.1 f.2

Suits-keep :
    (want p n q k : ℕ) (rest : List (ℕ × ℕ))
    → ApartAll p n ((q, k) ∷ rest)
    → Suits want (q, k, rest)
    → Suits want (q, k, (p, n) ∷ rest)
Suits-keep want p n q k rest (apart, more) h = record {
  fits = h.fits;
  ne_zero = h.ne_zero;
  in_range = h.in_range;
  apart = (omega arith, h.apart);
}

pub first_fit-Suits :
    (want : ℕ) (bs : List (ℕ × ℕ)) {m : Memory} {c : ℕ}
    → IsBlocks m c bs
    → Whenever (Suits want) (first_fit want bs)
unfolding first_fit
first_fit-Suits want [] chain = tt
first_fit-Suits want ((p, n) ∷ bs) chain =
    let b = First-of chain in
    elim (Bool-cases (leb want n)) [
      | inl e ↦
          let fit : want ≤ n = ground arith in
          let le = taken_le want n fit in
          let range = b.in_range in
          rw e (record {
            fits = le.1;
            ne_zero = b.ne_zero;
            in_range = omega arith;
            apart = taken_apart want p n bs fit b.apart;
          })
      | inr e ↦ rw e (
          kept (first_fit want bs) (first_fit-Suits want bs b.rest)
            (first_fit-ApartAll want p n bs b.apart))
    ]
  where
    kept :
        (o : Option Fit)
        → Whenever (Suits want) o
        → Whenever (λ (q, k, rest). ApartAll p n ((q, k) ∷ rest)) o
        → Whenever (Suits want) (keep_block (p, n) o)
    kept none suits apart = tt
    kept (some (q, k, rest)) suits apart = Suits-keep want p n q k rest apart suits
