-- ===== src/Memory/Bytes/Copy.antt =====
-- What the byte loops of memory.c leave in memory.
use dos_kernel.Common.{
  ℕ, zero, suc, ◌+◌, ◌-◌, ◌^◌, ◌≤◌, ◌≡◌, refl, sym, arith, Bool, ◌&&◌, u64, ltb, leb, ◌==◌, ◌⊎◌,
  inl, inr, Bool-cases, ◌∙◌, if◌then◌else◌,
}
use native.Mathlib.Decide.{ℕ_discrete}
use dos_kernel.Memory.Bytes.{Bytes, poke, up_loop, memcpy, down_loop, memmove}

-- The range of `count` bytes from `a` on.
abbrev pub inside : ℕ → ℕ → ℕ → Bool
inside a count b = leb a b && ltb b (a + count)

-- The bytes from `src` on, at `dest`, over what stood there before.
abbrev pub copied : ℕ → ℕ → ℕ → Bytes → Bytes
copied dest src count m b = if inside dest count b then m (src + (b - dest)) else m b

-- No source byte of an upward copy is overwritten before it is read.
abbrev pub UpSafe : ℕ → ℕ → ℕ → Type 0
UpSafe dest src count = (dest ≤ src) ⊎ (src + count ≤ dest)

up_next :
    (rounds dest src : ℕ) (m : Bytes) (b : ℕ)
    → UpSafe dest src (suc rounds)
    → copied (dest + 1) (src + 1) rounds (poke m dest (m src)) b ≡ copied dest src (suc rounds) m b
up_next rounds dest src m b safe =
    let offset : src + 1 + (b - (dest + 1))
        ≡ (if b == dest then src + 1 else if ltb b dest then src + 1 else src + (b - dest)) =
      ground arith in
    elim (ℕ_discrete b dest) [
      | yes e ↦ let at : src + (dest - dest) ≡ src = omega arith in rw (e, at) (ground arith)
      | no ne ↦ ground arith
    ]

up_loop-copied :
    (rounds dest src i : ℕ) (m : Bytes) (b : ℕ)
    → dest + i + rounds ≤ 2 ^ 64
    → src + i + rounds ≤ 2 ^ 64
    → UpSafe (dest + i) (src + i) rounds
    → up_loop rounds dest src i m b ≡ copied (dest + i) (src + i) rounds m b
unfolding up_loop
up_loop-copied zero dest src i m b hd hs safe = ground arith
up_loop-copied (suc rounds) dest src i m b hd hs safe =
    let d : u64 (dest + i) ≡ dest + i = omega arith in
    let e : u64 (src + i) ≡ src + i = omega arith in
    let d' : dest + (i + 1) ≡ dest + i + 1 = omega arith in
    let e' : src + (i + 1) ≡ src + i + 1 = omega arith in
    rw (d, e)
      (up_loop-copied rounds dest src (i + 1) (poke m (dest + i) (m (src + i))) b (omega arith)
          (omega arith) (omega arith)
        ∙ rw (d', e') (up_next rounds (dest + i) (src + i) m b safe))

down_next :
    (i dest src : ℕ) (m : Bytes) (b : ℕ)
    → src ≤ dest
    → copied dest src i (poke m (dest + i) (m (src + i))) b ≡ copied dest src (suc i) m b
down_next i dest src m b le = elim (ℕ_discrete b (dest + i)) [
  | yes e ↦ let at : src + (dest + i - dest) ≡ src + i = omega arith in rw (e, at) (ground arith)
  | no ne ↦ ground arith
]

down_loop-copied :
    (n dest src : ℕ) (m : Bytes) (b : ℕ)
    → dest + n ≤ 2 ^ 64
    → src + n ≤ 2 ^ 64
    → src ≤ dest
    → down_loop n dest src m b ≡ copied dest src n m b
unfolding down_loop
down_loop-copied zero dest src m b hd hs le = ground arith
down_loop-copied (suc i) dest src m b hd hs le =
    let d : u64 (dest + i) ≡ dest + i = omega arith in
    let e : u64 (src + i) ≡ src + i = omega arith in
    rw (d, e)
      (down_loop-copied i dest src (poke m (dest + i) (m (src + i))) b (omega arith) (omega arith)
          le
        ∙ down_next i dest src m b le)

unmoved : (dest count : ℕ) (m : Bytes) (b : ℕ) → copied dest dest count m b ≡ m b
unmoved dest count m b = elim (Bool-cases (inside dest count b)) [
  | inl y ↦ let back : dest + (b - dest) ≡ b = ground arith in rw (y, back) refl
  | inr n ↦ rw n refl
]

-- memmove leaves at `dest` the bytes that stood at `src` and changes no other byte, also when the two
-- ranges overlap, for ranges within the address space.
pub memmove-copied :
    (dest src count : ℕ) (m : Bytes) (b : ℕ)
    → dest + count ≤ 2 ^ 64
    → src + count ≤ 2 ^ 64
    → memmove dest src count m b ≡ copied dest src count m b
unfolding memmove
memmove-copied dest src count m b hd hs =
    let at : (dest + 0 ≡ dest) × (src + 0 ≡ src) = omega arith in
    elim (Bool-cases (src == dest)) [
      | inl same ↦ let eq : src ≡ dest = ground arith in rw (same, eq, unmoved dest count m b) refl
      | inr apart ↦ rw apart (elim (Bool-cases (ltb dest src)) [
        | inl up ↦ rw up (
            up_loop-copied count dest src 0 m b (omega arith) (omega arith) (inl (ground arith))
            ∙ rw (at.0, at.1) refl)
        | inr down ↦ rw down (down_loop-copied count dest src m b hd hs (ground arith))
      ])
    ]

-- memcpy does what memmove does when the source is not below an overlapping destination.
pub memcpy-memmove :
    (dest src count : ℕ) (m : Bytes) (b : ℕ)
    → dest + count ≤ 2 ^ 64
    → src + count ≤ 2 ^ 64
    → UpSafe dest src count
    → memcpy dest src count m b ≡ memmove dest src count m b
unfolding memcpy
memcpy-memmove dest src count m b hd hs safe =
    let at : (dest + 0 ≡ dest) × (src + 0 ≡ src) = omega arith in
    up_loop-copied count dest src 0 m b (omega arith) (omega arith) (rw (at.0, at.1) safe)
    ∙ rw (at.0, at.1) (sym (memmove-copied dest src count m b hd hs))
