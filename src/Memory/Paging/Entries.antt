-- ===== src/Memory/Paging/Entries.antt =====
-- Indices, entries and slots as arithmetic.
use dos_kernel.Common.{
  ℕ, ◌+◌, ◌-◌, ◌*◌, ◌/◌, ◌%◌, ◌^◌, ◌<◌, ◌≡◌, ◌⊎◌, inl, inr, refl, ◌∙◌, arith, true, false, bit_and,
  bit_or, u64,
}
use dos_kernel.Common.Bits.{
  bit_and_split, bit_or_split, bit_and_mask, bit_and-zero, bit_and_bit, bit_or-zero, zero-bit_or,
}
use dos_kernel.Memory.Paging.{
  index, slot, present, child_at, intermediate_flags, entry_4k_address_mask,
}

pub index-lt : (v l : ℕ) → index v l < 512
unfolding index
index-lt v l = omega (arith, bit_and_mask 9 (v / 2 ^ ((l - 1) * 9 + 12)))

pub index_levels :
    (v : ℕ)
    → (index v 1 ≡ v / 2 ^ 12 % 512)
      × (index v 2 ≡ v / 2 ^ 21 % 512)
      × (index v 3 ≡ v / 2 ^ 30 % 512)
      × (index v 4 ≡ v / 2 ^ 39 % 512)
unfolding index
index_levels v = (
  bit_and_mask 9 (v / 2 ^ 12),
  bit_and_mask 9 (v / 2 ^ 21),
  bit_and_mask 9 (v / 2 ^ 30),
  bit_and_mask 9 (v / 2 ^ 39),
)

pub slot_lem : (t i : ℕ) → t % 4096 ≡ 0 → t < 2 ^ 64 → i < 512 → slot t i ≡ t + 8 * i
unfolding slot
slot_lem t i a h hi = omega arith

pub address_field : (e : ℕ) → bit_and e entry_4k_address_mask ≡ e / 2 ^ 12 % 2 ^ 40 * 2 ^ 12
address_field e = ground (
  arith,
  bit_and_split 12 (e / 2 ^ 12) (e % 2 ^ 12) (2 ^ 40 - 1) 0,
  bit_and_mask 40 (e / 2 ^ 12),
  bit_and-zero (e % 2 ^ 12),
)

pub present_odd : (e : ℕ) → (present e ≡ true) → e % 2 ≡ 1
unfolding present
present_odd e h = ground (arith, bit_and_bit 0 e)

pub odd_present : (e : ℕ) → e % 2 ≡ 1 → present e ≡ true
unfolding present
odd_present e h = ground (arith, bit_and_bit 0 e)

pub zero_absent : present 0 ≡ false
unfolding present
zero_absent = refl

pub intermediate_range : (f : ℕ) → (intermediate_flags f ≡ 3) ⊎ (intermediate_flags f ≡ 7)
unfolding intermediate_flags
intermediate_range f = ground arith

pub low_or : (k q : ℕ) → k < 2 ^ 12 → bit_or k (q * 2 ^ 12) ≡ q * 2 ^ 12 + k
low_or k q h = ground (arith, bit_or_split 12 0 k q 0, zero-bit_or q, bit_or-zero k)

-- An entry `k` in the low bits over a page-aligned frame.
flags_and_frame :
    (o k a : ℕ)
    → k < 2 ^ 12
    → k % 2 ≡ 1
    → a % 4096 ≡ 0
    → a < 2 ^ 52
    → let e = bit_or k (bit_and a entry_4k_address_mask) in
      (present e ≡ true) × (child_at o e ≡ u64 (o + a))
unfolding child_at
flags_and_frame o k a hk odd ha hl =
    let q = a / 2 ^ 12 in
    let e : bit_or k (bit_and a entry_4k_address_mask) ≡ q * 2 ^ 12 + k =
      rw (address_field a) (low_or k (q % 2 ^ 40) hk ∙ omega arith) in
    rw e (
      odd_present (q * 2 ^ 12 + k) (omega arith),
      rw (address_field (q * 2 ^ 12 + k)) (omega arith),
    )

-- A new intermediate entry is present and leads to its frame.
pub new_entry :
    (o f a : ℕ)
    → a % 4096 ≡ 0
    → a < 2 ^ 52
    → let e = bit_or (intermediate_flags f) (bit_and a entry_4k_address_mask) in
      (present e ≡ true) × (child_at o e ≡ u64 (o + a))
new_entry o f a ha hl = elim (intermediate_range f) [
  | inl three ↦ rw three (flags_and_frame o 3 a (omega arith) refl ha hl)
  | inr seven ↦ rw seven (flags_and_frame o 7 a (omega arith) refl ha hl)
]
