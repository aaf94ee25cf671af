-- ===== src/Storage/Ahci/Ports/Kept.antt =====
-- The probe of a controller leaves the table of controllers as it is.
use dos_kernel.Common.{
  ℕ, zero, suc, ◌+◌, ◌≡◌, refl, Bool, true, false, ◌==◌, not, if◌then◌else◌, Run, Cmd, ok, panicked,
  out_of_fuel, and_then, pure, ◌>>=◌, u32, ◌<<<◌, bit_and, Bool-cases, inl, inr,
}
use dos_kernel.Storage.Ahci.{Hba, Port, Registers, get_reg, cmd, ssts, sig, px_cr, px_fr, dev_null}
use dos_kernel.Storage.Ahci.Ports.{
  check_type, type_of, wait_stopped, start_cmd, wait_idle_engines, stop_cmd, header_loop,
  port_rebase, probe_loop, ahci_probe_ports,
}

-- A run that returns, if it does, with the controllers of `s`.
pub data Kept {A : Type 0} (s : Hba) : Run Hba A → Type 0 where
  returned : {a : A} {t : Hba} → t.abars ≡ s.abars → Kept s (ok a t)
  stopped : Kept s panicked
  spent : Kept s out_of_fuel

Kept-bind :
    {A B : Type 0} {s : Hba} (r : Run Hba A) (k : A → Cmd Hba B)
    → Kept s r
    → ((a : A) (t : Hba) → t.abars ≡ s.abars → Kept s (k a t))
    → Kept s (and_then r k)
Kept-bind r k (Kept.returned e) next = next _ _ e
Kept-bind r k Kept.stopped next = Kept.stopped
Kept-bind r k Kept.spent next = Kept.spent

Kept-if :
    {A : Type 0} {s : Hba} (b : Bool) (m n : Cmd Hba A) (t : Hba)
    → Kept s (m t)
    → Kept s (n t)
    → Kept s ((if b then m else n) t)
Kept-if true m n t km kn = km
Kept-if false m n t km kn = kn

module _ (dev : Registers) where
  wait_stopped-Kept :
      (fuel : ℕ) (port : Port) (s t : Hba)
      → t.abars ≡ s.abars
      → Kept s (wait_stopped dev fuel port t)
  unfolding wait_stopped get_reg
  wait_stopped-Kept zero port s t e = Kept.spent
  wait_stopped-Kept (suc fuel) port s t e =
      Kept-if _ (pure tt) (wait_stopped dev fuel port) _ (Kept.returned e)
        (wait_stopped-Kept fuel port s _ e)

  start_cmd-Kept :
      (fuel : ℕ) (port : Port) (s t : Hba) → t.abars ≡ s.abars → Kept s (start_cmd dev fuel port t)
  unfolding start_cmd get_reg
  start_cmd-Kept fuel port s t e =
      Kept-bind (wait_stopped dev fuel port t) _ (wait_stopped-Kept fuel port s t e)
        λ a u e. Kept.returned e

  wait_idle_engines-Kept :
      (fuel : ℕ) (port : Port) (s t : Hba)
      → t.abars ≡ s.abars
      → Kept s (wait_idle_engines dev fuel port t)
  unfolding wait_idle_engines get_reg
  wait_idle_engines-Kept zero port s t e = Kept.spent
  wait_idle_engines-Kept (suc fuel) port s t e =
      let again = λ (u : Hba) (e : u.abars ≡ s.abars). wait_idle_engines-Kept fuel port s u e in
      let test : ℕ → Cmd Hba (Unit {0}) =
        λ w. if not (bit_and w px_cr == 0) then wait_idle_engines dev fuel port else pure tt in
      Kept-if (not (bit_and (u32 (dev t port cmd)) px_fr == 0)) (wait_idle_engines dev fuel port)
        (get_reg dev port cmd >>= test) _ (again _ e)
        (Kept-if _ (wait_idle_engines dev fuel port) (pure tt) _ (again _ e) (Kept.returned e))

  stop_cmd-Kept :
      (fuel : ℕ) (port : Port) (s t : Hba) → t.abars ≡ s.abars → Kept s (stop_cmd dev fuel port t)
  unfolding stop_cmd get_reg
  stop_cmd-Kept fuel port s t e = wait_idle_engines-Kept fuel port s _ e

  header_loop-Kept :
      (rounds portno list i : ℕ) (s t : Hba)
      → t.abars ≡ s.abars
      → Kept s (header_loop dev rounds portno list i t)
  unfolding header_loop
  header_loop-Kept zero portno list i s t e = Kept.returned e
  header_loop-Kept (suc rounds) portno list i s t e =
      header_loop-Kept rounds portno list (i + 1) s _ e

  port_rebase-Kept :
      (fuel : ℕ) (port : Port) (s t : Hba)
      → t.abars ≡ s.abars
      → Kept s (port_rebase dev fuel port t)
  unfolding port_rebase
  port_rebase-Kept fuel port s t e =
      Kept-bind (stop_cmd dev fuel port t) _ (stop_cmd-Kept fuel port s t e) λ a u e.
        Kept-bind (header_loop dev 32 port.number _ 0 _) _
          (header_loop-Kept 32 port.number _ 0 s _ e) λ b v e. start_cmd-Kept fuel port s v e

  check_type-Kept : (port : Port) (s t : Hba) → t.abars ≡ s.abars → Kept s (check_type dev port t)
  unfolding check_type get_reg
  check_type-Kept port s t e =
      let status = u32 (dev t port ssts) in
      Kept-if (type_of status 0 == dev_null) (pure dev_null)
        (get_reg dev port sig >>= λ signature. pure (type_of status signature)) _ (Kept.returned e)
        (Kept.returned e)

  probe_loop-Kept :
      (rounds fuel pi abar controller i : ℕ) (s t : Hba)
      → t.abars ≡ s.abars
      → Kept s (probe_loop dev rounds fuel pi abar controller i t)
  unfolding probe_loop
  probe_loop-Kept zero fuel pi abar controller i s t e = Kept.returned e
  probe_loop-Kept (suc rounds) fuel pi abar controller i s t e =
      let port : Port = record { abar = abar; number = i } in
      let next = λ (u : Hba) (e : u.abars ≡ s.abars).
        probe_loop-Kept rounds fuel pi abar controller (i + 1) s u e in
      elim (Bool-cases (bit_and pi (1 <<< i) == 0)) [
        | inl absent ↦ rw absent (next t e)
        | inr there ↦ rw there (
            Kept-bind (check_type dev port t) _ (check_type-Kept port s t e) λ type u e.
              Kept-bind (port_rebase dev fuel port u) _ (port_rebase-Kept fuel port s u e)
                λ b v e. next _ e)
      ]

  pub ahci_probe_ports-Kept :
      (fuel pi abar controller : ℕ) (s : Hba)
      → Kept s (ahci_probe_ports dev fuel pi abar controller s)
  unfolding ahci_probe_ports
  ahci_probe_ports-Kept fuel pi abar controller s =
      probe_loop-Kept 32 fuel pi abar controller 0 s s refl
