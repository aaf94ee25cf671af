-- ===== src/Memory/Heap/Blocks.antt =====
-- The free list of the heap as a list of blocks, each with its address and the size after its header, and the
-- first-fit search on such a list.
use dos_kernel.Common.{
  ℕ, ◌+◌, ◌-◌, ◌^◌, ◌≤◌, ◌<◌, ◌≡◌, ◌≢◌, ◌⊎◌, refl, ◌∙◌, arith, List, [], ◌∷◌, Option, none, some,
  Bool, leb, ltb, if◌then◌else◌,
}
use dos_kernel.Memory.Machine.{Machine, Memory}

-- The bytes of a block at `p` with `n` bytes after its header and those of one at `q` with `k` do not meet.
abbrev pub Apart : ℕ → ℕ → ℕ → ℕ → Type 0
Apart p n q k = (p + 24 + n ≤ q) ⊎ (q + 24 + k ≤ p)

abbrev pub ApartAll : ℕ → ℕ → List (ℕ × ℕ) → Type 0
ApartAll p n [] = Unit
ApartAll p n ((q, k) ∷ bs) = Apart p n q k × ApartAll p n bs

-- From `p` the headers lead through the blocks `bs` to 0; no two of them meet.
pub data IsBlocks (m : Memory) : ℕ → List (ℕ × ℕ) → Type 0 where
  end : IsBlocks m 0 []
  block :
      {p n : ℕ} {bs : List (ℕ × ℕ)}
      → p ≢ 0
      → p + 24 + n < 2 ^ 64
      → m (p + 8) ≡ n
      → ApartAll p n bs
      → IsBlocks m (m (p + 16)) bs
      → IsBlocks m p ((p, n) ∷ bs)

-- The blocks `bs` are free in the state `s`.
abbrev pub HasBlocks : Machine → List (ℕ × ℕ) → Type 0
HasBlocks s bs = IsBlocks s.mem s.free_list bs

pub record First (m : Memory) (c p n : ℕ) (bs : List (ℕ × ℕ)) : Type 0 where
  pub same : c ≡ p
  pub ne_zero : p ≢ 0
  pub in_range : p + 24 + n < 2 ^ 64
  pub sized : m (p + 8) ≡ n
  pub apart : ApartAll p n bs
  pub rest : IsBlocks m (m (p + 16)) bs

pub First-of :
    {m : Memory} {c p n : ℕ} {bs : List (ℕ × ℕ)} → IsBlocks m c ((p, n) ∷ bs) → First m c p n bs
First-of (block ne lt size apart rest) = record {
  same = refl;
  ne_zero = ne;
  in_range = lt;
  sized = size;
  apart = apart;
  rest = rest;
}

pub first_of_nil : {m : Memory} {c : ℕ} → IsBlocks m c [] → c ≡ 0
first_of_nil end = refl

-- An address outside the bytes from `p` on of a block with `n` bytes after its header.
abbrev pub Beyond : ℕ → ℕ → ℕ → Type 0
Beyond a p n = (a < p) ⊎ (p + 24 + n ≤ a)

abbrev pub Outside : ℕ → List (ℕ × ℕ) → Type 0
Outside a [] = Unit
Outside a ((p, n) ∷ bs) = Beyond a p n × Outside a bs

-- A block apart from others stays so when it shrinks.
pub ApartAll-within :
    (p n q k : ℕ) (bs : List (ℕ × ℕ)) → p ≤ q → q + k ≤ p + n → ApartAll p n bs → ApartAll q k bs
ApartAll-within p n q k [] h l apart = tt
ApartAll-within p n q k ((x, y) ∷ bs) h l (apart, more) =
    (omega arith, ApartAll-within p n q k bs h l more)

-- The headers of blocks apart from the changed bytes are kept.
pub headers_kept :
    {m : Memory} {c : ℕ} {bs : List (ℕ × ℕ)} (g : Memory) (p n q k : ℕ)
    → IsBlocks m c bs
    → ApartAll p n bs
    → ApartAll q k bs
    → ((a : ℕ) → Beyond a p n → Beyond a q k → g a ≡ m a)
    → IsBlocks g c bs
headers_kept g p n q k end one two same = end
headers_kept {m} {c} g p n q k (block {n = z} {bs} ne lt size apart rest) (o, one) (t, two) same =
    let at : (a : ℕ) → c ≤ a → a < c + 24 + z → g a ≡ m a =
      λ a l h. same a (omega arith) (omega arith) in
    let next : g (c + 16) ≡ m (c + 16) = at (c + 16) (omega arith) (omega arith) in
    block ne lt (at (c + 8) (omega arith) (omega arith) ∙ size) apart
      (rw next (headers_kept g p n q k rest one two same))

-- What first fit leaves of a block of `n` bytes at `p`: a block that is large enough for another one behind
-- the wanted bytes is cut in two.
abbrev pub is_whole : ℕ → ℕ → Bool
is_whole want n = ltb n (want + 40)

abbrev pub taken_size : ℕ → ℕ → ℕ
taken_size want n = if is_whole want n then n else want

abbrev pub remainder : ℕ → ℕ → ℕ → List (ℕ × ℕ) → List (ℕ × ℕ)
remainder want p n bs = if is_whole want n then bs else (p + 24 + want, n - want - 24) ∷ bs

-- The address and the size of the first block with `want` bytes, and the other blocks.
abbrev pub Fit : Type 0
Fit = ℕ × ℕ × List (ℕ × ℕ)

abbrev pub keep_block : ℕ × ℕ → Option Fit → Option Fit
keep_block b none = none
keep_block b (some (q, k, rest)) = some (q, k, b ∷ rest)

unfoldable pub first_fit : ℕ → List (ℕ × ℕ) → Option Fit
first_fit want [] = none
first_fit want ((p, n) ∷ bs) =
    let more = first_fit want bs in
    if leb want n
    then some (p, taken_size want n, remainder want p n bs)
    else keep_block (p, n) more
