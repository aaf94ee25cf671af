-- ===== src/Common/Outcome.antt =====
-- The outcome of a kernel routine: it returns, it stops in `panic` on a failed ASSERT of
-- kernel/include/assert.h, or it is still in a loop when the fuel of the model is spent.
use mathlib.Core.Bool.{Bool, true, false}

pub data Run {ℓ κ} (S : Type ℓ) (A : Type κ) : Type (ℓ ⊔ κ) where
  ok : A → S → Run S A
  panicked : Run S A
  out_of_fuel : Run S A

abbrev pub Cmd {ℓ κ} : Type ℓ → Type κ → Type (ℓ ⊔ κ)
Cmd S A = S → Run S A

abbrev pub pure {ℓ κ} : {S : Type ℓ} {A : Type κ} → A → Cmd S A
pure a = λ s. ok a s

abbrev pub and_then {ℓ κ μ} :
    {S : Type ℓ} {A : Type κ} {B : Type μ} → Run S A → (A → Cmd S B) → Run S B
and_then (ok a s) k = k a s
and_then panicked k = panicked
and_then out_of_fuel k = out_of_fuel

infixl 5 ◌>>=◌ ◌>>◌
abbrev pub ◌>>=◌ {ℓ κ μ} :
    {S : Type ℓ} {A : Type κ} {B : Type μ} → Cmd S A → (A → Cmd S B) → Cmd S B
m >>= k = λ s. and_then (m s) k

abbrev pub ◌>>◌ {ℓ κ} : {S : Type ℓ} {B : Type κ} → Cmd S (Unit {0}) → Cmd S B → Cmd S B
m >> k = m >>= λ _. k

-- ASSERT of kernel/include/assert.h, in a build without NDEBUG.
abbrev pub assert {ℓ} : {S : Type ℓ} → Bool → Cmd S (Unit {0})
assert true s = ok tt s
assert false s = panicked
