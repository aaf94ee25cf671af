-- ===== src/Storage/Ahci/Transfer.antt =====
-- kernel/src/storage/ahci.c: the transfer of sectors, ahci_read and ahci_write.
use dos_kernel.Common.{
  ℕ, zero, suc, ◌+◌, ◌-◌, ◌/◌, ◌^◌, Bool, true, false, not, Option, none, some, bit_and, bit_or,
  ◌<<<◌, ltb, leb, ◌==◌, if◌then◌else◌, get_elem?, length, Cmd, ok, pure, ◌>>=◌, ◌>>◌,
}
use dos_kernel.Storage.Ahci.{
  is, tfd, serr, sact, ci, Port, Hba, Registers, set_reg, px_errors, busy, get_reg,
}
use dos_kernel.Storage.Ahci.Command.{free_slot, build}

module _ (dev : Registers) where
  unfoldable pub find_cmdslot : Port → Cmd Hba (Option ℕ)
  find_cmdslot port = do
    active ← get_reg dev port sact
    issued ← get_reg dev port ci
    pure (free_slot 32 0 (bit_or active issued))

  -- `while ((tfd & (BUSY | DRQ)) != 0) if (++spin > 1000000) return 1;` with `spins` left.
  unfoldable pub wait_ready : ℕ → Port → Cmd Hba Bool
  wait_ready zero port = do v ← get_reg dev port tfd; pure (bit_and v busy == 0)
  wait_ready (suc spins) port = do
    v ← get_reg dev port tfd
    if bit_and v busy == 0 then pure true else wait_ready spins port

  -- The wait for the slot to clear: false on an error bit and when the spins are spent.
  unfoldable pub wait_done : ℕ → Port → ℕ → Cmd Hba Bool
  wait_done zero port slot = do
    v ← get_reg dev port ci
    if bit_and v (1 <<< slot) == 0 then pure true else do e ← get_reg dev port is; pure false
  wait_done (suc spins) port slot = do
    v ← get_reg dev port ci
    if bit_and v (1 <<< slot) == 0 then pure true else do
      e ← get_reg dev port is
      if not (bit_and e px_errors == 0) then pure false else wait_done spins port slot

  -- From the wait for the drive on: the command is built.
  unfoldable pub issue : Port → ℕ → Cmd Hba ℕ
  issue port slot = do
    ready ← wait_ready 1000000 port
    if not ready then pure 1 else do
      v ← get_reg dev port ci
      set_reg port ci (bit_or v (1 <<< slot))
      done ← wait_done 1000000 port slot
      if not done
          then pure 1
          else do w ← get_reg dev port tfd; pure (if bit_and w busy == 0 then 0 else 1)

  -- The part of a transfer behind find_cmdslot.
  unfoldable pub transfer_slot : Port → Option ℕ → ℕ → ℕ → ℕ → ℕ → ℕ → Cmd Hba ℕ
  transfer_slot port none w command sector count buf = pure 1
  transfer_slot port (some slot) w command sector count buf =
      if ltb 8 ((count + 15) / 16)
      then pure 1
      else do build dev port slot ((count + 15) / 16) w command sector count buf; issue port slot

  unfoldable pub transfer_abar : Option ℕ → ℕ → ℕ → ℕ → ℕ → ℕ → ℕ → Cmd Hba ℕ
  transfer_abar none port w command sector count buf = pure 1
  transfer_abar (some abar) port w command sector count buf =
      let hba_port : Port = record { abar = abar; number = port } in
      if abar == 0 then pure 1 else do
        set_reg hba_port is (2 ^ 32 - 1)
        set_reg hba_port serr (2 ^ 32 - 1)
        slot ← find_cmdslot hba_port
        transfer_slot hba_port slot w command sector count buf

  -- The bodies of ahci_read and ahci_write differ in the direction and the command.
  unfoldable pub transfer : ℕ → ℕ → ℕ → ℕ → ℕ → ℕ → ℕ → Cmd Hba ℕ
  transfer w command controller port sector count buf = if count == 0 then pure 1 else do
    abar ← (λ s. ok (get_elem? s.abars controller) s)
    transfer_abar abar port w command sector count buf

  unfoldable pub ahci_read : ℕ → ℕ → ℕ → ℕ → ℕ → Cmd Hba ℕ
  ahci_read controller port sector count buf = transfer 0 0x25 controller port sector count buf

  unfoldable pub ahci_write : ℕ → ℕ → ℕ → ℕ → ℕ → Cmd Hba ℕ
  ahci_write controller port sector count buf = transfer 1 0x35 controller port sector count buf

unfoldable pub ahci_get_controller_count : Hba → ℕ
ahci_get_controller_count s = length s.abars

-- `none` is NULL.
unfoldable pub ahci_get_controller : ℕ → Hba → Option ℕ
ahci_get_controller index s =
    if leb (ahci_get_controller_count s) index then none else get_elem? s.abars index
