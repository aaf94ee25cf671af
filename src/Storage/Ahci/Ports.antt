-- ===== src/Storage/Ahci/Ports.antt =====
-- kernel/src/storage/ahci.c: the type of a port, its start and stop, and the probe of a controller.
pub mod Kept
use dos_kernel.Common.{
  ℕ, zero, suc, ◌+◌, ◌-◌, ◌*◌, ◌^◌, not, ◌&&◌, bit_and, bit_or, ◌<<<◌, ◌>>>◌, ◌==◌, if◌then◌else◌,
  Cmd, ok, out_of_fuel, pure, ◌>>=◌, ◌>>◌,
}
use dos_kernel.Storage.Ahci.{
  clb, clbu, fb, fbu, is, ie, cmd, sig, ssts, serr, sact, ci, Port, Hba, Registers, set_reg, poke16,
  poke32, change, memset_zero, phys_virt, dev_null, dev_sata, dev_semb, dev_pm, dev_satapi, px_st,
  px_fre, px_fr, px_cr, ahci_base, get_reg,
}

-- The device types by the status and the signature of a port.
unfoldable pub type_of : ℕ → ℕ → ℕ
type_of status signature =
    if not (bit_and status 0x0F == 3)
    then dev_null
    else if not (bit_and (status >>> 8) 0x0F == 1)
    then dev_null
    else if signature == 0xEB140101
    then dev_satapi
    else if signature == 0xC33C0101
    then dev_semb
    else if signature == 0x96690101
    then dev_pm
    else dev_sata

module _ (dev : Registers) where
  unfoldable pub check_type : Port → Cmd Hba ℕ
  check_type port = do
    status ← get_reg dev port ssts
    if type_of status 0 == dev_null
        then pure dev_null
        else do signature ← get_reg dev port sig; pure (type_of status signature)

  -- `while (port->cmd & HBA_PxCMD_CR);`, with fuel.
  unfoldable pub wait_stopped : ℕ → Port → Cmd Hba (Unit {0})
  wait_stopped zero port = λ _. out_of_fuel
  wait_stopped (suc fuel) port = do
    v ← get_reg dev port cmd
    if bit_and v px_cr == 0 then pure tt else wait_stopped fuel port

  unfoldable pub start_cmd : ℕ → Port → Cmd Hba (Unit {0})
  start_cmd fuel port = do
    wait_stopped fuel port
    v ← get_reg dev port cmd
    set_reg port cmd (bit_or v px_fre)
    w ← get_reg dev port cmd
    set_reg port cmd (bit_or w px_st)

  -- The `while (1)` of stop_cmd, with fuel.
  unfoldable pub wait_idle_engines : ℕ → Port → Cmd Hba (Unit {0})
  wait_idle_engines zero port = λ _. out_of_fuel
  wait_idle_engines (suc fuel) port = do
    v ← get_reg dev port cmd
    if not (bit_and v px_fr == 0) then wait_idle_engines fuel port else do
      w ← get_reg dev port cmd
      if not (bit_and w px_cr == 0) then wait_idle_engines fuel port else pure tt

  unfoldable pub stop_cmd : ℕ → Port → Cmd Hba (Unit {0})
  stop_cmd fuel port = do
    v ← get_reg dev port cmd
    set_reg port cmd (bit_and v (2 ^ 32 - 1 - px_st))
    w ← get_reg dev port cmd
    set_reg port cmd (bit_and w (2 ^ 32 - 1 - px_fre))
    wait_idle_engines fuel port

  -- `for (i = from; rounds more; i++)`: the headers of the command list and their tables.
  unfoldable pub header_loop : ℕ → ℕ → ℕ → ℕ → Cmd Hba (Unit {0})
  header_loop zero portno list i = pure tt
  header_loop (suc rounds) portno list i =
      let phys_ctba = ahci_base + (40 <<< 10) + (portno <<< 13) + (i <<< 8) in
      do
        virt_ctba ← phys_virt phys_ctba
        change (λ m. poke16 m (list + 32 * i + 2) 8)
        change (λ m. poke32 m (list + 32 * i + 8) (bit_and phys_ctba 0xFFFFFFFF))
        change (λ m. poke32 m (list + 32 * i + 12) (phys_ctba >>> 32))
        memset_zero virt_ctba 256
        header_loop rounds portno list (i + 1)

  unfoldable pub port_rebase : ℕ → Port → Cmd Hba (Unit {0})
  port_rebase fuel port =
      let portno = port.number in
      let phys_clb = ahci_base + (portno <<< 10) in
      let phys_fb = ahci_base + (32 <<< 10) + (portno <<< 8) in
      do
        stop_cmd fuel port
        virt_clb ← phys_virt phys_clb
        set_reg port clb (bit_and phys_clb 0xFFFFFFFF)
        set_reg port clbu (phys_clb >>> 32)
        memset_zero virt_clb 1024
        virt_fb ← phys_virt phys_fb
        set_reg port fb (bit_and phys_fb 0xFFFFFFFF)
        set_reg port fbu (phys_fb >>> 32)
        memset_zero virt_fb 256
        set_reg port is (2 ^ 32 - 1)
        set_reg port ie (2 ^ 32 - 1)
        set_reg port serr (2 ^ 32 - 1)
        set_reg port ci 0
        set_reg port sact 0
        header_loop 32 portno virt_clb 0
        start_cmd fuel port

  -- `for (i = from; rounds more; i++)` over the ports that the register `pi` names.
  unfoldable pub probe_loop : ℕ → ℕ → ℕ → ℕ → ℕ → ℕ → Cmd Hba (Unit {0})
  probe_loop zero fuel pi abar controller i = pure tt
  probe_loop (suc rounds) fuel pi abar controller i =
      let port : Port = record { abar = abar; number = i } in
      let next = probe_loop rounds fuel pi abar controller (i + 1) in
      if bit_and pi (1 <<< i) == 0 then next else do
        type ← check_type port
        port_rebase fuel port
        (λ s. ok tt (record s {
          infos = λ c p.
              if c == controller && p == i
              then record { type = type; present = if type == dev_null then 0 else 1 }
              else s.infos c p;
        }))
        next

  -- `pi` is what the controller's register of that name reads.
  unfoldable pub ahci_probe_ports : ℕ → ℕ → ℕ → ℕ → Cmd Hba (Unit {0})
  ahci_probe_ports fuel pi abar controller = probe_loop 32 fuel pi abar controller 0
