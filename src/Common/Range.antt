-- ===== src/Common/Range.antt =====
-- A Boolean test at every number of a range, for facts on bytes that evaluation settles.
use Prim.Native.Nat.{ℕ, zero, suc, ◌<◌}
use mathlib.Core.Path.{◌≡◌}
use mathlib.Core.Bool.{Bool, true, false}
use dos_kernel.Common.Tests.{if◌then◌else◌}
use native.Mathlib.Omega.{arith}

unfoldable pub every : (ℕ → Bool) → ℕ → Bool
every test zero = true
every test (suc top) = if test top then every test top else false

-- A test that holds on the range holds at each number of it.
pub every_at : (test : ℕ → Bool) (top i : ℕ) → every test top ≡ true → i < top → test i ≡ true
unfolding every
every_at test zero i all below = absurd (omega arith)
every_at test (suc top) i all below = ground (arith, every_at test top i)
