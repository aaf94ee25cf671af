-- ===== src/Memory/Heap/Align.antt =====
-- The rounding of sizes in kmalloc.
use dos_kernel.Common.{ℕ, ◌+◌, ◌-◌, ◌*◌, ◌/◌, ◌%◌, ◌^◌, ◌<◌, ◌≡◌, ap, ◌∙◌, arith, u64, bit_and}
use dos_kernel.Common.Bits.{bit_and_split, bit_and_mask, bit_and-zero}
use dos_kernel.Memory.Heap.{align16}

-- The rounding up to 16.
pub align16_lem : (size : ℕ) → size + 15 < 2 ^ 64 → align16 size ≡ (size + 15) / 16 * 16
align16_lem size h =
    let q = (size + 15) / 2 ^ 4 in
    let whole : u64 (size + 15) ≡ q * 2 ^ 4 + (size + 15) % 2 ^ 4 = omega arith in
    let high : bit_and q (2 ^ 60 - 1) ≡ q = bit_and_mask 60 q ∙ omega arith in
    let low : bit_and ((size + 15) % 2 ^ 4) 0 ≡ 0 = bit_and-zero _ in
    ap (λ x. bit_and x (2 ^ 64 - 1 - 15)) whole
    ∙ bit_and_split 4 q ((size + 15) % 2 ^ 4) (2 ^ 60 - 1) 0 (omega arith) (omega arith)
    ∙ omega (arith, high, low)

pub align16-align16 : (size : ℕ) → size + 30 < 2 ^ 64 → align16 (align16 size) ≡ align16 size
align16-align16 size h =
    let once = align16_lem size (omega arith) in
    let twice = align16_lem (align16 size) (omega arith) in omega arith
