-- ===== src/Storage/Ahci/Scan/Quiet.antt =====
-- The scan of a bus without controllers visits every device and adds nothing.
use dos_kernel.Common.{
  ℕ, zero, suc, ◌+◌, ◌≤◌, ◌<◌, ◌≡◌, refl, arith, false, ◌==◌, [], ltb, Run, Cmd, ok, and_then,
  Bool-cases, inl, inr,
}
use dos_kernel.Ports.{Device, History}
use dos_kernel.Pci.{config_address, is_ahci_device, read_config_word}
use dos_kernel.Pci.Asked.{
  Asked, read_config_word-asks, read_config_word-keeps, read_config_byte-keeps,
  is_ahci_device-keeps,
}
use dos_kernel.Storage.Ahci.{Registers}
use dos_kernel.Storage.Ahci.Scan.{
  Scan, reset, take_device, func_limit, visit, func_loop, slot_loop, bus_loop, ahci_init,
}

-- A run that changes nothing but the history of the ports, and that forgets nothing.
record Looked {A : Type 0} (s : Scan) (r : Run Scan A) : Type 0 where
  value : A
  ports : History
  runs : r ≡ ok value (record s { ports = ports })
  keeps : (a : ℕ) → Asked a s.ports → Asked a ports

abbrev Looked-bind :
    {A B : Type 0} {s : Scan} {r : Run Scan A} (k : A → Cmd Scan B) (l : Looked s r)
    → (m : Looked (record s { ports = l.ports }) (k l.value (record s { ports = l.ports })))
    → Looked s (and_then r k)
Looked-bind k l m = record {
  value = m.value;
  ports = m.ports;
  runs = rw l.runs m.runs;
  keeps = λ a h. m.keeps a (l.keeps a h);
}

module _ (dev : Registers) (pci : Device) (pi : Scan → ℕ → ℕ) (fuel : ℕ)
    (quiet : (bus slot func : ℕ) (h : History)
      → (is_ahci_device pci bus slot func h).0 ≡ false) where
  take_device-Looked :
      (bus slot func : ℕ) (s : Scan) → Looked s (take_device dev pci pi fuel bus slot func s)
  unfolding take_device
  take_device-Looked bus slot func s = rw (quiet bus slot func s.ports) (record {
    value = tt;
    ports = _;
    runs = refl;
    keeps = is_ahci_device-keeps pci bus slot func s.ports;
  })

  func_limit-Looked :
      (bus slot func limit : ℕ) (s : Scan)
      → limit ≤ 8
      → (l : Looked s (func_limit dev pci pi bus slot func limit s)) × (l.value ≤ 8)
  unfolding func_limit
  func_limit-Looked bus slot func limit s small = elim (Bool-cases (func == 0)) [
    | inl z ↦ rw z (
      record {
        value = _;
        ports = _;
        runs = refl;
        keeps = read_config_byte-keeps pci bus slot func s.ports 0x0e;
      },
      ground arith,
    )
    | inr nz ↦
        rw nz (record { value = limit; ports = s.ports; runs = refl; keeps = λ a h. h }, small)
  ]

  -- The vendor of the function is asked for, and at most eight functions are looked at.
  visit-Looked :
      (bus slot func limit : ℕ) (s : Scan)
      → limit ≤ 8
      → (l : Looked s (visit dev pci pi fuel bus slot func limit s)) × (l.value ≤ 8)
        × Asked (config_address bus slot func 0) l.ports
  unfolding visit
  visit-Looked bus slot func limit s small =
      let vendor = read_config_word pci bus slot func 0 s.ports in
      let keeps = read_config_word-keeps pci bus slot func s.ports 0 in
      let asks = read_config_word-asks pci bus slot func s.ports in
      let t : Scan = record s { ports = vendor.1 } in
      elim (Bool-cases (vendor.0 == 0xffff)) [
        | inl gone ↦
            rw gone
              (record { value = limit; ports = vendor.1; runs = refl; keeps = keeps }, small, asks)
        | inr there ↦
            let (l, few) = func_limit-Looked bus slot func limit t small in
            let u : Scan = record s { ports = l.ports } in
            let d = take_device-Looked bus slot func u in
            rw there (
              record {
                value = l.value;
                ports = d.ports;
                runs = rw (l.runs, d.runs) refl;
                keeps = λ a h. d.keeps a (l.keeps a (keeps a h));
              },
              few,
              d.keeps _ (l.keeps _ asks),
            )
      ]

  -- The loop ends, and asks for the vendor of the function that it starts with.
  func_loop-Looked :
      (rounds bus slot func limit : ℕ) (s : Scan)
      → limit ≤ 8
      → func ≤ 8
      → 8 < func + rounds
      → (l : Looked s (func_loop dev pci pi rounds fuel bus slot func limit s)) × (func < limit
          → Asked (config_address bus slot func 0) l.ports)
  unfolding func_loop
  func_loop-Looked zero bus slot func limit s small low enough = absurd (omega arith)
  func_loop-Looked (suc rounds) bus slot func limit s small low enough =
      elim (Bool-cases (ltb func limit)) [
        | inl more ↦
            let (v, few, asks) = visit-Looked bus slot func limit s small in
            let (l, _) =
              func_loop-Looked rounds bus slot (func + 1) v.value (record s { ports = v.ports }) few
                (ground arith) (omega arith) in
            rw more (
              Looked-bind (func_loop dev pci pi rounds fuel bus slot (func + 1)) v l,
              λ h. l.keeps _ asks,
            )
        | inr done ↦ rw done (
          record { value = tt; ports = s.ports; runs = refl; keeps = λ a h. h },
          λ h. absurd (ground arith),
        )
      ]

  slot_loop-Looked :
      (rounds bus slot : ℕ) (s : Scan)
      → (l : Looked s (slot_loop dev pci pi rounds fuel bus slot s)) × ((i : ℕ)
          → i < rounds
          → Asked (config_address bus (slot + i) 0 0) l.ports)
  unfolding slot_loop
  slot_loop-Looked zero bus slot s = (
    record { value = tt; ports = s.ports; runs = refl; keeps = λ a h. h },
    λ i h. absurd (omega arith),
  )
  slot_loop-Looked (suc rounds) bus slot s =
      let (first, asks) =
        func_loop-Looked 9 bus slot 0 1 s (omega arith) (omega arith) (omega arith) in
      let (l, all) = slot_loop-Looked rounds bus (slot + 1) (record s { ports = first.ports }) in
      (
        Looked-bind (λ _. slot_loop dev pci pi rounds fuel bus (slot + 1)) first l,
        λ i h. at i h (l.keeps _ (asks (omega arith))) all,
      )
    where
      at :
          {p : History} (i : ℕ)
          → i < suc rounds
          → Asked (config_address bus slot 0 0) p
          → ((i : ℕ) → i < rounds → Asked (config_address bus (slot + 1 + i) 0 0) p)
          → Asked (config_address bus (slot + i) 0 0) p
      at zero h here all = let e : slot + 0 ≡ slot = omega arith in rw e here
      at (suc i) h here all =
          let e : slot + suc i ≡ slot + 1 + i = omega arith in rw e (all i (omega arith))

  bus_loop-Looked :
      (rounds bus : ℕ) (s : Scan)
      → (l : Looked s (bus_loop dev pci pi rounds fuel bus s)) × ((i j : ℕ)
          → i < rounds
          → j < 32
          → Asked (config_address (bus + i) j 0 0) l.ports)
  unfolding bus_loop
  bus_loop-Looked zero bus s = (
    record { value = tt; ports = s.ports; runs = refl; keeps = λ a h. h },
    λ i j h. absurd (omega arith),
  )
  bus_loop-Looked (suc rounds) bus s =
      let (first, asks) = slot_loop-Looked 32 bus 0 s in
      let (l, all) = bus_loop-Looked rounds (bus + 1) (record s { ports = first.ports }) in
      (
        Looked-bind (λ _. bus_loop dev pci pi rounds fuel (bus + 1)) first l,
        λ i j h k. at i j h k (λ j k. l.keeps _ (asks j k)) all,
      )
    where
      at :
          {p : History} (i j : ℕ)
          → i < suc rounds
          → j < 32
          → ((j : ℕ) → j < 32 → Asked (config_address bus (0 + j) 0 0) p)
          → ((i j : ℕ) → i < rounds → j < 32 → Asked (config_address (bus + 1 + i) j 0 0) p)
          → Asked (config_address (bus + i) j 0 0) p
      at zero j h k here all =
          let e : bus + 0 ≡ bus = omega arith in
          let f : 0 + j ≡ j = omega arith in rw e (rw f at (here j k))
      at (suc i) j h k here all =
          let e : bus + suc i ≡ bus + 1 + i = omega arith in rw e (all i j (omega arith) k)

-- On a bus where no function answers as an AHCI controller, ahci_init returns 0 whatever its waits: it clears
-- the tables of controllers and ports, writes no other state, and has asked every slot of every bus.
pub ahci_init-quiet :
    (dev : Registers) (pci : Device) (pi : Scan → ℕ → ℕ) (fuel : ℕ) (s : Scan)
    → ((bus slot func : ℕ) (h : History) → (is_ahci_device pci bus slot func h).0 ≡ false)
    → (ports : History) × (ahci_init dev pci pi fuel s
        ≡ ok 0 (record s {
          hba = record s.hba {
            abars = [];
            infos = λ controller port. record { type = 0; present = 0 };
          };
          ports = ports;
        }))
      × ((bus slot : ℕ) → bus < 256 → slot < 32 → Asked (config_address bus slot 0 0) ports)
unfolding ahci_init reset
ahci_init-quiet dev pci pi fuel s quiet =
    let t : Scan = record s {
      hba = record s.hba {
        abars = [];
        infos = λ controller port. record { type = 0; present = 0 };
      };
    } in
    let (l, asks) = bus_loop-Looked dev pci pi fuel quiet 256 0 t in
    (
      l.ports,
      rw l.runs refl,
      λ bus slot h k. let e : 0 + bus ≡ bus = omega arith in rw e at (asks bus slot h k),
    )
