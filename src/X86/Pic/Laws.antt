-- ===== src/X86/Pic/Laws.antt =====
-- What the routines of pic.c leave in the mask registers.
use dos_kernel.Common.{
  ℕ, ◌-◌, ◌*◌, ◌/◌, ◌%◌, ◌^◌, ◌<◌, ◌≡◌, ◌≢◌, refl, arith, Bool, true, false, ◌==◌, ==_iff, bit_and,
  bit_or, u8, ap, if◌then◌else◌, ◌∷◌,
}
use native.Mathlib.Decide.{ℕ_discrete}
use dos_kernel.Common.Range.{every, every_at}
use dos_kernel.Ports.{Device, History, out8, in8}
use dos_kernel.X86.Pic.{line_port, line_bit, pic_mask_irq, pic_unmask_irq}

abbrev bit_at : ℕ → ℕ → ℕ
bit_at v i = v / 2 ^ i % 2

-- Bit `j` of a byte after bit `i` was set and after it was cleared.
abbrev set_ok : ℕ → ℕ → ℕ → Bool
set_ok v i j = bit_at (u8 (u8 (bit_or v (1 * 2 ^ i)))) j == (if i == j then 1 else bit_at v j)

abbrev clear_ok : ℕ → ℕ → ℕ → Bool
clear_ok v i j =
    bit_at (u8 (u8 (bit_and v (2 ^ 32 - 1 - 1 * 2 ^ i)))) j == (if i == j then 0 else bit_at v j)

set_table : every (λ i. every (λ j. every (λ v. set_ok v i j) 256) 8) 8 ≡ true
unfolding every
set_table = refl

clear_table : every (λ i. every (λ j. every (λ v. clear_ok v i j) 256) 8) 8 ≡ true
unfolding every
clear_table = refl

set_bit : (v i j : ℕ) → v < 256 → i < 8 → j < 8 → set_ok v i j ≡ true
set_bit v i j hv hi hj =
    every_at (λ u. set_ok u i j) 256 v
      (every_at (λ n. every (λ u. set_ok u i n) 256) 8 j
        (every_at (λ m. every (λ n. every (λ u. set_ok u m n) 256) 8) 8 i set_table hi) hj)
      hv

clear_bit : (v i j : ℕ) → v < 256 → i < 8 → j < 8 → clear_ok v i j ≡ true
clear_bit v i j hv hi hj =
    every_at (λ u. clear_ok u i j) 256 v
      (every_at (λ n. every (λ u. clear_ok u i n) 256) 8 j
        (every_at (λ m. every (λ n. every (λ u. clear_ok u m n) 256) 8) 8 i clear_table hi) hj)
      hv

-- The documented behaviour of the mask registers of the two controllers: a data port reads back the
-- byte that was last written to it, and nothing else moves it.
pub record Latches (dev : Device) : Type 0 where
  pub written : (h : History) (p v : ℕ) → dev (out8 p v ∷ h) p ≡ v
  pub kept : (h : History) (p q v : ℕ) → p ≢ q → dev (out8 p v ∷ h) q ≡ dev h q
  pub after_read : (h : History) (p q v : ℕ) → dev (in8 p v ∷ h) q ≡ dev h q

-- The mask bit of a line: 1 when the line is masked.
abbrev pub mask_bit : Device → History → ℕ → ℕ
mask_bit dev h irq = bit_at (u8 (dev h (line_port irq))) (line_bit irq)

line_bit-lt : (irq : ℕ) → irq < 16 → line_bit irq < 8
unfolding line_bit
line_bit-lt irq h = ground arith

line_of_bit :
    (irq j : ℕ)
    → line_port irq ≡ line_port j
    → irq < 16
    → j < 16
    → (irq == j) ≡ (line_bit irq == line_bit j)
unfolding line_port line_bit
line_of_bit irq j e hi hj = ground arith

module _ {dev : Device} (l : Latches dev) (irq j : ℕ) (hi : irq < 16) (hj : j < 16)
    (h : History) where
  abbrev before : ℕ
  before = u8 (dev h (line_port irq))

  abbrev after : ℕ → History
  after new = out8 (line_port irq) new ∷ in8 (line_port irq) before ∷ h

  other_port :
      (new : ℕ)
      → line_port irq ≢ line_port j
      → (mask_bit dev (after new) j ≡ mask_bit dev h j) × ((irq == j) ≡ false)
  other_port new ne = (rw (l.kept _ _ _ new ne, l.after_read) refl, ground (arith, ap line_port))

  -- pic_mask_irq masks its line and leaves the fifteen other lines as they were.
  pub pic_mask_irq-mask_bit :
      mask_bit dev (pic_mask_irq dev irq h).1 j ≡ (if irq == j then 1 else mask_bit dev h j)
  unfolding pic_mask_irq
  pic_mask_irq-mask_bit = elim (ℕ_discrete (line_port irq) (line_port j)) [
    | yes e ↦
        rw (← e, l.written, line_of_bit irq j e hi hj)
          ((==_iff _ _).0 (
            set_bit before (line_bit irq) (line_bit j) (omega arith) (line_bit-lt irq hi)
              (line_bit-lt j hj)))
    | no ne ↦
        rw ((other_port (u8 (bit_or before (1 * 2 ^ line_bit irq))) ne).0, (other_port 0 ne).1) refl
  ]

  -- pic_unmask_irq unmasks its line and leaves the fifteen other lines as they were.
  pub pic_unmask_irq-mask_bit :
      mask_bit dev (pic_unmask_irq dev irq h).1 j ≡ (if irq == j then 0 else mask_bit dev h j)
  unfolding pic_unmask_irq
  pic_unmask_irq-mask_bit = elim (ℕ_discrete (line_port irq) (line_port j)) [
    | yes e ↦
        rw (← e, l.written, line_of_bit irq j e hi hj)
          ((==_iff _ _).0 (
            clear_bit before (line_bit irq) (line_bit j) (omega arith) (line_bit-lt irq hi)
              (line_bit-lt j hj)))
    | no ne ↦
        rw
          (
            (other_port (u8 (bit_and before (2 ^ 32 - 1 - 1 * 2 ^ line_bit irq))) ne).0,
            (other_port 0 ne).1,
          )
          refl
  ]
