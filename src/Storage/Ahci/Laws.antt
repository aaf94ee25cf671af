-- ===== src/Storage/Ahci/Laws.antt =====
-- A transfer ends with a status, whatever the controller answers.
use dos_kernel.Common.{
  ℕ, zero, suc, ◌+◌, ◌/◌, ◌≤◌, ◌≡◌, refl, arith, Bool, true, false, not, ◌∷◌, u32, ◌<<<◌, Option,
  none, some, bit_and, ◌==◌, ltb, if◌then◌else◌, Bool-cases, inl, inr, get_elem?, Run, Cmd, ok,
  pure, ◌>>=◌,
}
use dos_kernel.Storage.Ahci.{Hba, Port, ci, is, got, px_errors, Registers, get_reg}
use dos_kernel.Storage.Ahci.Command.{build, prdt_loop}
use dos_kernel.Storage.Ahci.Transfer.{
  find_cmdslot, wait_ready, wait_done, issue, transfer_slot, transfer_abar, transfer,
}

-- A run that returns a value for which `P` holds.
abbrev pub Returns : {A : Type 0} → (A → Type 0) → Run Hba A → Type 0
Returns {A} P r = (a : A) × (t : Hba) × (r ≡ ok a t) × P a

abbrev Any : {A : Type 0} → A → Type 0
Any a = Unit

bind-Returns :
    {A B : Type 0} {P : A → Type 0} (Q : B → Type 0) (m : Cmd Hba A) (k : A → Cmd Hba B) (s : Hba)
    → Returns P (m s)
    → ((a : A) (t : Hba) → P a → Returns Q (k a t))
    → Returns Q ((m >>= k) s)
bind-Returns Q m k s (a, t, e, p) next = rw e (next a t p)

if-Returns :
    {A : Type 0} (Q : A → Type 0) (b : Bool) (m k : Cmd Hba A) (s : Hba)
    → Returns Q (m s)
    → Returns Q (k s)
    → Returns Q ((if b then m else k) s)
if-Returns Q true m k s x y = x
if-Returns Q false m k s x y = y

module _ (dev : Registers) where
  wait_ready-Returns :
      (spins : ℕ) (port : Port) (s : Hba) → Returns Any (wait_ready dev spins port s)
  unfolding wait_ready get_reg
  wait_ready-Returns zero port s = (_, _, refl, tt)
  wait_ready-Returns (suc spins) port s =
      if-Returns Any _ (pure true) (wait_ready dev spins port) _ (_, _, refl, tt)
        (wait_ready-Returns spins port _)

  wait_done-Returns :
      (spins : ℕ) (port : Port) (slot : ℕ) (s : Hba) → Returns Any (wait_done dev spins port slot s)
  unfolding wait_done get_reg
  wait_done-Returns zero port slot s =
      elim (Bool-cases (bit_and (u32 (dev s port ci)) (1 <<< slot) == 0)) [
        | inl clear ↦ rw clear (true, _, refl, tt)
        | inr set ↦ rw set (false, _, refl, tt)
      ]
  wait_done-Returns (suc spins) port slot s =
      let read_ci : Hba = record s { log = got port ci ∷ s.log } in
      elim (Bool-cases (bit_and (u32 (dev s port ci)) (1 <<< slot) == 0)) [
        | inl clear ↦ rw clear (true, _, refl, tt)
        | inr set ↦ rw set (elim (Bool-cases (bit_and (u32 (dev read_ci port is)) px_errors == 0)) [
          | inl fine ↦ rw fine (wait_done-Returns spins port slot _)
          | inr bad ↦ rw bad (false, _, refl, tt)
        ])
      ]

  -- A status is 0 or 1.
  abbrev pub Status : ℕ → Type 0
  Status code = code ≤ 1

  last-Status : (b : Bool) → Status (if b then 0 else 1)
  last-Status true = omega arith
  last-Status false = omega arith

  issue-Returns : (port : Port) (slot : ℕ) (s : Hba) → Returns Status (issue dev port slot s)
  unfolding issue get_reg
  issue-Returns port slot s =
      bind-Returns Status (wait_ready dev 1000000 port) _ s (wait_ready-Returns 1000000 port s)
        λ ready t _.
          if-Returns Status (not ready) (pure 1) _ t (1, t, refl, omega arith)
            (bind-Returns Status (wait_done dev 1000000 port slot) _ _
              (wait_done-Returns 1000000 port slot _)
              λ done u _.
                if-Returns Status (not done) (pure 1) _ u (1, u, refl, omega arith)
                  (_, _, refl, last-Status _))

  prdt_loop-Returns :
      (rounds cmdtbl n i buffer left : ℕ) (s : Hba)
      → Returns Any (prdt_loop rounds cmdtbl n i buffer left s)
  unfolding prdt_loop
  prdt_loop-Returns zero cmdtbl n i buffer left s = (tt, s, refl, tt)
  prdt_loop-Returns (suc rounds) cmdtbl n i buffer left s =
      prdt_loop-Returns rounds cmdtbl n (i + 1) _ _ _

  build-Returns :
      (port : Port) (slot n w command sector count buf : ℕ) (s : Hba)
      → Returns Any (build dev port slot n w command sector count buf s)
  unfolding build get_reg
  build-Returns port slot n w command sector count buf s =
      bind-Returns Any (prdt_loop n _ n 0 buf count) _ _ (prdt_loop-Returns n _ n 0 buf count _)
        λ _ t _. (tt, _, refl, tt)

  transfer_slot-Returns :
      (port : Port) (o : Option ℕ) (w command sector count buf : ℕ) (s : Hba)
      → Returns Status (transfer_slot dev port o w command sector count buf s)
  unfolding transfer_slot
  transfer_slot-Returns port none w command sector count buf s = (1, s, refl, omega arith)
  transfer_slot-Returns port (some slot) w command sector count buf s =
      let n = (count + 15) / 16 in
      elim (Bool-cases (ltb 8 n)) [
        | inl over ↦ rw over (1, s, refl, omega arith)
        | inr fits ↦ rw fits (
            bind-Returns Status (build dev port slot n w command sector count buf)
              (λ _. issue dev port slot) s (build-Returns port slot n w command sector count buf s)
              λ _ t _. issue-Returns port slot t)
      ]

  transfer_abar-Returns :
      (o : Option ℕ) (port w command sector count buf : ℕ) (s : Hba)
      → Returns Status (transfer_abar dev o port w command sector count buf s)
  unfolding transfer_abar find_cmdslot get_reg
  transfer_abar-Returns none port w command sector count buf s = (1, s, refl, omega arith)
  transfer_abar-Returns (some abar) port w command sector count buf s =
      elim (Bool-cases (abar == 0)) [
        | inl null ↦ rw null (1, s, refl, omega arith)
        | inr there ↦ rw there (transfer_slot-Returns _ _ w command sector count buf _)
      ]

  -- ahci_read and ahci_write return 0 or 1 from every state, whatever the controller answers: no wait
  -- in them is endless. Without sectors to move, or for a controller that was not found, the
  -- status is 1 and nothing is touched.
  pub transfer-Returns :
      (w command controller port sector count buf : ℕ) (s : Hba)
      → Returns Status (transfer dev w command controller port sector count buf s)
        × (count ≡ 0 → transfer dev w command controller port sector count buf s ≡ ok 1 s)
        × (get_elem? s.abars controller ≡ none
            → transfer dev w command controller port sector count buf s ≡ ok 1 s)
  unfolding transfer transfer_abar
  transfer-Returns w command controller port sector count buf s = (
    elim (Bool-cases (count == 0)) [
      | inl z ↦ rw z (1, s, refl, omega arith)
      | inr n ↦
          rw n
            (transfer_abar-Returns (get_elem? s.abars controller) port w command sector count buf s)
    ],
    λ e. let z : (count == 0) ≡ true = ground arith in rw z refl,
    λ e. elim (Bool-cases (count == 0)) [ inl z ↦ rw z refl | inr n ↦ rw (n, e) refl ],
  )
