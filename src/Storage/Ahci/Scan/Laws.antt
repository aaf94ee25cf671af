-- ===== src/Storage/Ahci/Scan/Laws.antt =====
-- The bound on the number of controllers, and the scan of a bus without any.
use dos_kernel.Common.{
  ℕ, zero, suc, ◌+◌, ◌^◌, ◌≤◌, ◌<◌, ◌≡◌, ap, arith, ◌==◌, [], ◌∷◌, ◌++◌, length, length-append, ltb,
  leb, Run, Cmd, ok, panicked, out_of_fuel, and_then, Bool-cases, inl, inr,
}
use dos_kernel.Ports.{Device, History}
use dos_kernel.Pci.{is_ahci_device, read_bar64, read_config_word}
use dos_kernel.Memory.Machine.{Machine, phys_virt}
use dos_kernel.Memory.Paging.{paging_get_current_pml4, paging_map_page}
use dos_kernel.Storage.Ahci.{Hba, Registers, ahci_base}
use dos_kernel.Storage.Ahci.Ports.{ahci_probe_ports}
use dos_kernel.Storage.Ahci.Ports.Kept.{Kept, ahci_probe_ports-Kept}
use dos_kernel.Storage.Ahci.Scan.{
  Scan, in_memory, in_hba, reset, add_controller, take_device, func_limit, visit, func_loop,
  slot_loop, bus_loop, ahci_init,
}

-- The number of controllers, counted on the table.
abbrev pub count : Scan → ℕ
count s = length s.hba.abars

-- A run that keeps to the room for eight controllers, where it returns.
pub data Bounded {A : Type 0} : Run Scan A → Type 0 where
  returned : {a : A} {t : Scan} → count t ≤ 8 → Bounded (ok a t)
  stopped : Bounded panicked
  spent : Bounded out_of_fuel

Bounded-bind :
    {A B : Type 0} (r : Run Scan A) (k : A → Cmd Scan B)
    → Bounded r
    → ((a : A) (t : Scan) → count t ≤ 8 → Bounded (k a t))
    → Bounded (and_then r k)
Bounded-bind r k (Bounded.returned e) next = next _ _ e
Bounded-bind r k Bounded.stopped next = Bounded.stopped
Bounded-bind r k Bounded.spent next = Bounded.spent

-- A routine of the memory part and what follows it.
memory-bind :
    {A B : Type 0} (r : Run Machine A) (k : A → Cmd Scan B) (s : Scan)
    → ((a : A) (m : Machine) → Bounded (k a (record s { machine = m })))
    → Bounded (and_then (in_memory r s) k)
memory-bind (ok a m) k s next = next a m
memory-bind panicked k s next = Bounded.stopped
memory-bind out_of_fuel k s next = Bounded.spent

hba-bind :
    {A B : Type 0} (r : Run Hba A) (k : A → Cmd Scan B) (s : Scan)
    → Kept s.hba r
    → ((a : A) (h : Hba) → h.abars ≡ s.hba.abars → Bounded (k a (record s { hba = h })))
    → Bounded (and_then (in_hba r s) k)
hba-bind r k s (Kept.returned e) next = next _ _ e
hba-bind r k s Kept.stopped next = Bounded.stopped
hba-bind r k s Kept.spent next = Bounded.spent

one_more :
    (h : Hba) (m : Machine) (ports : History) (abar : ℕ)
    → length h.abars < 8
    → Bounded {A = Unit {0}} (
        ok tt
          (record { hba = record h { abars = h.abars ++ abar ∷ [] }; machine = m; ports = ports }))
one_more h m ports abar room = Bounded.returned (omega (arith, length-append h.abars (abar ∷ [])))

module _ (dev : Registers) (pci : Device) (pi : Scan → ℕ → ℕ) (fuel : ℕ) where
  add_controller-Bounded :
      (abar_phys : ℕ) (s : Scan)
      → count s < 8
      → Bounded (add_controller dev pci pi fuel abar_phys s)
  unfolding add_controller
  add_controller-Bounded abar_phys s room =
      memory-bind (paging_get_current_pml4 s.machine) _ s λ pml4 m.
        memory-bind
          (paging_map_page pml4 (phys_virt s.machine.offset abar_phys) abar_phys 0x1000
            (2 ^ 0 + 2 ^ 1) m)
          _ _
          λ a m.
            memory-bind
              (paging_map_page pml4 (phys_virt m.offset ahci_base) ahci_base 0x4A000 (2 ^ 0 + 2 ^ 1)
                m)
              _ _
              λ b m.
                hba-bind
                  (ahci_probe_ports dev fuel _ (phys_virt s.machine.offset abar_phys) (count s)
                    s.hba)
                  _ _
                  (ahci_probe_ports-Kept dev fuel _ (phys_virt s.machine.offset abar_phys) (count s)
                    s.hba)
                  λ c h e. one_more h m _ _ (omega (arith, ap length e))

  take_device-Bounded :
      (bus slot func : ℕ) (s : Scan)
      → count s ≤ 8
      → Bounded (take_device dev pci pi fuel bus slot func s)
  unfolding take_device
  take_device-Bounded bus slot func s few =
      elim (Bool-cases (is_ahci_device pci bus slot func s.ports).0) [
        | inl is ↦
            let bar =
              read_bar64 pci bus slot func 0x24 (is_ahci_device pci bus slot func s.ports).1 in
            rw is (elim (Bool-cases (bar.0 == 0)) [
              | inl z ↦ rw z (Bounded.returned few)
              | inr nz ↦ rw nz (elim (Bool-cases (leb 8 (count s))) [
                | inl full ↦ rw full (Bounded.returned few)
                | inr room ↦
                    rw room
                      (add_controller-Bounded bar.0 (record s { ports = bar.1 }) (ground arith))
              ])
            ])
        | inr other ↦ rw other (Bounded.returned few)
      ]

  func_limit-Bounded :
      (bus slot func limit : ℕ) (s : Scan)
      → count s ≤ 8
      → Bounded (func_limit dev pci pi bus slot func limit s)
  unfolding func_limit
  func_limit-Bounded bus slot func limit s few = elim (Bool-cases (func == 0)) [
    | inl z ↦ rw z (Bounded.returned few)
    | inr nz ↦ rw nz (Bounded.returned few)
  ]

  visit-Bounded :
      (bus slot func limit : ℕ) (s : Scan)
      → count s ≤ 8
      → Bounded (visit dev pci pi fuel bus slot func limit s)
  unfolding visit
  visit-Bounded bus slot func limit s few =
      let vendor = read_config_word pci bus slot func 0 s.ports in
      let t : Scan = record s { ports = vendor.1 } in
      elim (Bool-cases (vendor.0 == 0xffff)) [
        | inl gone ↦ rw gone (Bounded.returned few)
        | inr there ↦ rw there (
            Bounded-bind (func_limit dev pci pi bus slot func limit t) _
              (func_limit-Bounded bus slot func limit t few)
              λ next u few.
                Bounded-bind (take_device dev pci pi fuel bus slot func u) _
                  (take_device-Bounded bus slot func u few) λ a v few. Bounded.returned few)
      ]

  func_loop-Bounded :
      (rounds bus slot func limit : ℕ) (s : Scan)
      → count s ≤ 8
      → Bounded (func_loop dev pci pi rounds fuel bus slot func limit s)
  unfolding func_loop
  func_loop-Bounded zero bus slot func limit s few = Bounded.spent
  func_loop-Bounded (suc rounds) bus slot func limit s few = elim (Bool-cases (ltb func limit)) [
    | inl more ↦ rw more (
        Bounded-bind (visit dev pci pi fuel bus slot func limit s) _
          (visit-Bounded bus slot func limit s few)
          λ next t few. func_loop-Bounded rounds bus slot (func + 1) next t few)
    | inr done ↦ rw done (Bounded.returned few)
  ]

  slot_loop-Bounded :
      (rounds bus slot : ℕ) (s : Scan)
      → count s ≤ 8
      → Bounded (slot_loop dev pci pi rounds fuel bus slot s)
  unfolding slot_loop
  slot_loop-Bounded zero bus slot s few = Bounded.returned few
  slot_loop-Bounded (suc rounds) bus slot s few =
      Bounded-bind (func_loop dev pci pi 9 fuel bus slot 0 1 s) _
        (func_loop-Bounded 9 bus slot 0 1 s few)
        λ a t few. slot_loop-Bounded rounds bus (slot + 1) t few

  bus_loop-Bounded :
      (rounds bus : ℕ) (s : Scan) → count s ≤ 8 → Bounded (bus_loop dev pci pi rounds fuel bus s)
  unfolding bus_loop
  bus_loop-Bounded zero bus s few = Bounded.returned few
  bus_loop-Bounded (suc rounds) bus s few =
      Bounded-bind (slot_loop dev pci pi 32 fuel bus 0 s) _ (slot_loop-Bounded 32 bus 0 s few)
        λ a t few. bus_loop-Bounded rounds (bus + 1) t few

-- However the devices answer, ahci_init does not add a controller to a table of eight: where it returns, there are
-- at most eight, and it returns their number.
pub ahci_init-Bounded :
    (dev : Registers) (pci : Device) (pi : Scan → ℕ → ℕ) (fuel : ℕ) (s : Scan)
    → Bounded (ahci_init dev pci pi fuel s)
      × ((n : ℕ) (t : Scan) → ahci_init dev pci pi fuel s ≡ ok n t → n ≡ count t)
unfolding ahci_init reset
ahci_init-Bounded dev pci pi fuel s =
    let t : Scan = record s {
      hba = record s.hba {
        abars = [];
        infos = λ controller port. record { type = 0; present = 0 };
      };
    } in
    (
      Bounded-bind (bus_loop dev pci pi 256 fuel 0 t) _
          (bus_loop-Bounded dev pci pi fuel 256 0 t (omega arith)) λ a u few. Bounded.returned few,
      counted (bus_loop dev pci pi 256 fuel 0 t),
    )
  where
    counted :
        (r : Run Scan (Unit {0})) (n : ℕ) (t : Scan)
        → and_then r (λ _ u. ok (count u) u) ≡ ok n t
        → n ≡ count t
    counted (ok a u) n t e = cc e
    counted panicked n t e = cc e
    counted out_of_fuel n t e = cc e
