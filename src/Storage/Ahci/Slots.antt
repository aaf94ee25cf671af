-- ===== src/Storage/Ahci/Slots.antt =====
-- Which slot find_cmdslot takes.
use dos_kernel.Common.{
  ℕ, zero, suc, ◌+◌, ◌*◌, ◌/◌, ◌%◌, ◌^◌, ◌≤◌, ◌<◌, ◌≡◌, refl, arith, false, Option, none, some,
  bit_and, ◌==◌, Bool-cases, inl, inr, ==_iff,
}
use native.Mathlib.Nat.{one-le-pow}
use native.Mathlib.Decide.{ℕ_discrete}
use dos_kernel.Common.Bits.{bit_and_bit}
use dos_kernel.Storage.Ahci.Command.{free_slot}

-- Slot `i` is set in the word.
abbrev pub Taken : ℕ → ℕ → Type 0
Taken slots i = slots / 2 ^ i % 2 ≡ 1

-- The lowest slot of 32 that is clear, or none when all are set.
pub data Lowest (slots : ℕ) : Option ℕ → Type 0 where
  full : ((j : ℕ) → j < 32 → Taken slots j) → Lowest slots none
  free :
      (i : ℕ)
      → i < 32
      → slots / 2 ^ i % 2 ≡ 0
      → ((j : ℕ) → j < i → Taken slots j)
      → Lowest slots (some i)

scaled : (b p : ℕ) → b < 2 → 1 ≤ p → (b * p == 0) ≡ (b == 0)
scaled zero p h q = let e : 0 * p ≡ 0 = omega arith in rw e refl
scaled (suc zero) p h q = ground arith
scaled (suc (suc b)) p h q = absurd (omega arith)

bit_clear : (slots i : ℕ) → (bit_and slots (1 * 2 ^ i) == 0) ≡ (slots / 2 ^ i % 2 == 0)
bit_clear slots i =
    let one : 1 * 2 ^ i ≡ 2 ^ i = omega arith in
    rw (one, bit_and_bit i slots)
      (scaled (slots / 2 ^ i % 2) (2 ^ i) (omega arith) (one-le-pow i 2 (omega arith)))

next-Taken :
    (slots i : ℕ)
    → ((j : ℕ) → j < i → Taken slots j)
    → (slots / 2 ^ i % 2 == 0) ≡ false
    → (j : ℕ) → j < i + 1
    → Taken slots j
next-Taken slots i below set j h = elim (ℕ_discrete j i) [
  | yes e ↦ let at : Taken slots i = ground arith in rw e at
  | no ne ↦ below j (omega arith)
]

loop-Lowest :
    (rounds i slots : ℕ)
    → i + rounds ≡ 32
    → ((j : ℕ) → j < i → Taken slots j)
    → Lowest slots (free_slot rounds i slots)
unfolding free_slot
loop-Lowest zero i slots e below = full (λ j h. below j (omega arith))
loop-Lowest (suc rounds) i slots e below = elim (Bool-cases (slots / 2 ^ i % 2 == 0)) [
  | inl clear ↦ rw (bit_clear slots i, clear) (free i (omega arith) ((==_iff _ _).0 clear) below)
  | inr set ↦
      rw (bit_clear slots i, set)
        (loop-Lowest rounds (i + 1) slots (omega arith) (next-Taken slots i below set))
]

-- The scan of find_cmdslot yields the lowest of the 32 slots whose bit is clear, and -1 exactly when
-- all of them are set.
pub free_slot-Lowest : (slots : ℕ) → Lowest slots (free_slot 32 0 slots)
free_slot-Lowest slots = loop-Lowest 32 0 slots refl (λ j h. absurd (omega arith))
