-- ===== src/Common/Bits.antt =====
-- `&` and `|` as arithmetic: they act on the fields of a word one by one, at every width.
mod Digit
use Digit.{bit_and_digit, bit_or_digit}
use Prim.Native.Nat.{ℕ, zero, suc, ◌+◌, ◌-◌, ◌*◌, ◌/◌, ◌%◌, ◌^◌, ◌≤◌, ◌<◌, bit_and, bit_or}
use mathlib.Core.Path.{◌≡◌, refl, ap}
use native.Mathlib.Omega.{arith}
use native.Mathlib.Nat.{pow-suc, one-le-pow}

double_field : (q k : ℕ) → q * 2 ^ suc k ≡ 2 * (q * 2 ^ k)
double_field q k = omega (arith, ap (λ (t : ℕ). q * t) (pow-suc 2 k))

and-zero-zero : bit_and 0 0 ≡ 0
and-zero-zero = refl

or-zero-zero : bit_or 0 0 ≡ 0
or-zero-zero = refl

-- The bits below `k` and those from `k` on do not mix.
pub bit_and_split :
    (k q r m n : ℕ)
    → r < 2 ^ k
    → n < 2 ^ k
    → bit_and (q * 2 ^ k + r) (m * 2 ^ k + n) ≡ bit_and q m * 2 ^ k + bit_and r n
bit_and_split zero q r m n hr hn = ground (arith, and-zero-zero)
bit_and_split (suc k) q r m n hr hn = ground (
  arith,
  bit_and_digit (q * 2 ^ suc k + r) (m * 2 ^ suc k + n),
  bit_and_digit r n,
  double_field q k,
  double_field m k,
  double_field (bit_and q m) k,
  pow-suc 2 k,
  bit_and_split k q (r / 2) m (n / 2) (omega (arith, pow-suc 2 k)) (omega (arith, pow-suc 2 k)),
)

pub bit_or_split :
    (k q r m n : ℕ)
    → r < 2 ^ k
    → n < 2 ^ k
    → bit_or (q * 2 ^ k + r) (m * 2 ^ k + n) ≡ bit_or q m * 2 ^ k + bit_or r n
bit_or_split zero q r m n hr hn = ground (arith, or-zero-zero)
bit_or_split (suc k) q r m n hr hn = ground (
  arith,
  bit_or_digit (q * 2 ^ suc k + r) (m * 2 ^ suc k + n),
  bit_or_digit r n,
  double_field q k,
  double_field m k,
  double_field (bit_or q m) k,
  pow-suc 2 k,
  bit_or_split k q (r / 2) m (n / 2) (omega (arith, pow-suc 2 k)) (omega (arith, pow-suc 2 k)),
)

and_zero_fuel : (n a : ℕ) → a ≤ n → (bit_and a 0 ≡ 0) × (bit_and 0 a ≡ 0)
and_zero_fuel n zero h = (refl, refl)
and_zero_fuel zero (suc a) h = absurd (omega arith)
and_zero_fuel (suc n) (suc a) h = omega (
  arith,
  bit_and_digit (suc a) 0,
  bit_and_digit 0 (suc a),
  and_zero_fuel n (suc a / 2) (omega arith),
)

or_zero_fuel : (n a : ℕ) → a ≤ n → (bit_or a 0 ≡ a) × (bit_or 0 a ≡ a)
or_zero_fuel n zero h = (refl, refl)
or_zero_fuel zero (suc a) h = absurd (omega arith)
or_zero_fuel (suc n) (suc a) h = omega (
  arith,
  bit_or_digit (suc a) 0,
  bit_or_digit 0 (suc a),
  or_zero_fuel n (suc a / 2) (omega arith),
)

pub bit_and-zero : (a : ℕ) → bit_and a 0 ≡ 0
bit_and-zero a = (and_zero_fuel a a (omega arith)).0

pub zero-bit_and : (a : ℕ) → bit_and 0 a ≡ 0
zero-bit_and a = (and_zero_fuel a a (omega arith)).1

pub bit_or-zero : (a : ℕ) → bit_or a 0 ≡ a
bit_or-zero a = (or_zero_fuel a a (omega arith)).0

pub zero-bit_or : (a : ℕ) → bit_or 0 a ≡ a
zero-bit_or a = (or_zero_fuel a a (omega arith)).1

-- A mask of `k` low bits is the remainder by `2 ^ k`.
mask_below : (k r : ℕ) → r < 2 ^ k → bit_and r (2 ^ k - 1) ≡ r
mask_below zero r h = ground (arith, and-zero-zero)
mask_below (suc k) r h = ground (
  arith,
  bit_and_digit r (2 ^ suc k - 1),
  pow-suc 2 k,
  one-le-pow k 2,
  mask_below k (r / 2) (omega (arith, pow-suc 2 k)),
)

pub bit_and_mask : (k a : ℕ) → bit_and a (2 ^ k - 1) ≡ a % 2 ^ k
bit_and_mask k a = ground (
  arith,
  one-le-pow k 2,
  bit_and_split k (a / 2 ^ k) (a % 2 ^ k) 0 (2 ^ k - 1),
  bit_and-zero (a / 2 ^ k),
  mask_below k (a % 2 ^ k),
)

-- `(q << k) | r` is a sum when `r` fits `k` bits.
pub bit_or_fields : (k q r : ℕ) → r < 2 ^ k → bit_or (q * 2 ^ k) r ≡ q * 2 ^ k + r
bit_or_fields k q r h =
    ground (arith, one-le-pow k 2, bit_or_split k q 0 0 r, bit_or-zero q, zero-bit_or r)

-- A single bit of a mask.
pub bit_and_bit : (k a : ℕ) → bit_and a (2 ^ k) ≡ a / 2 ^ k % 2 * 2 ^ k
bit_and_bit k a = ground (
  arith,
  one-le-pow k 2,
  bit_and_split k (a / 2 ^ k) (a % 2 ^ k) 1 0,
  bit_and_mask 1 (a / 2 ^ k),
  bit_and-zero (a % 2 ^ k),
)
