-- ===== src/Storage/Ahci.antt =====
-- kernel/src/storage/ahci.c with kernel/include/storage/ahci.h: the state of the driver, its accesses
-- to the registers of a port, and its accesses to memory. Registers are hardware: what a read answers
-- is a parameter, a function of the whole state, with the log of all accesses before. Memory holds what the processor wrote; the controller's own writes to it reach
-- data buffers and received FISes, which these routines do not read.
pub mod Ports
pub mod Command
pub mod Fis
pub mod Prdt
pub mod Build
pub mod Transfer
pub mod Scan
pub mod Laws
pub mod Slots
use dos_kernel.Common.{
  ℕ, zero, suc, ◌+◌, ◌-◌, ◌*◌, ◌/◌, ◌%◌, ◌^◌, Bool, true, false, not, ◌&&◌, ◌||◌, Option, none,
  some, List, [], ◌∷◌, bit_and, bit_or, u8, u16, u32, u64, sub32, sub64, ◌<<<◌, ◌>>>◌, ltb, leb,
  ◌==◌, if◌then◌else◌, get_elem?, length, Cmd, ok, out_of_fuel, pure, ◌>>=◌, ◌>>◌,
}

-- The fields of HBA_PORT that the driver uses.
pub data Reg : Type 0 where
  clb : Reg
  clbu : Reg
  fb : Reg
  fbu : Reg
  is : Reg
  ie : Reg
  cmd : Reg
  tfd : Reg
  sig : Reg
  ssts : Reg
  serr : Reg
  sact : Reg
  ci : Reg

-- An HBA_PORT: the address of its controller's registers and its number.
pub record Port : Type 0 where
  pub abar : ℕ
  pub number : ℕ

pub data Event : Type 0 where
  got : Port → Reg → Event
  set : Port → Reg → ℕ → Event

-- Bytes by virtual address.
abbrev pub Bytes : Type 0
Bytes = ℕ → ℕ

-- An ahci_port_info_t.
pub record PortInfo : Type 0 where
  pub type : ℕ
  pub present : ℕ

-- `abars` is g_abars up to g_abar_count; `infos` is the table of ports in g_ahci.
pub record Hba : Type 0 where
  pub mem : Bytes
  pub offset : ℕ
  pub abars : List ℕ
  pub infos : ℕ → ℕ → PortInfo
  pub log : List Event

abbrev pub Registers : Type 0
Registers = Hba → Port → Reg → ℕ

abbrev pub set_reg : Port → Reg → ℕ → Cmd Hba (Unit {0})
set_reg port reg value s = ok tt (record s { log = set port reg value ∷ s.log })

abbrev pub poke8 : Bytes → ℕ → ℕ → Bytes
poke8 m a v b = if b == a then u8 v else m b

abbrev pub poke16 : Bytes → ℕ → ℕ → Bytes
poke16 m a v = poke8 (poke8 m a v) (a + 1) (v / 2 ^ 8)

abbrev pub poke32 : Bytes → ℕ → ℕ → Bytes
poke32 m a v = poke16 (poke16 m a v) (a + 2) (v / 2 ^ 16)

abbrev pub peek32 : Bytes → ℕ → ℕ
peek32 m a = m a + m (a + 1) * 2 ^ 8 + m (a + 2) * 2 ^ 16 + m (a + 3) * 2 ^ 24

abbrev pub change : (Bytes → Bytes) → Cmd Hba (Unit {0})
change f s = ok tt (record s { mem = f s.mem })

abbrev pub memset_zero : ℕ → ℕ → Cmd Hba (Unit {0})
memset_zero a n = change λ m b. if leb a b && ltb b (a + n) then 0 else m b

abbrev pub phys_virt : ℕ → Cmd Hba ℕ
phys_virt phys s = ok (u64 (s.offset + phys)) s

abbrev pub dev_null : ℕ
dev_null = 0

abbrev pub dev_sata : ℕ
dev_sata = 1

abbrev pub dev_semb : ℕ
dev_semb = 2

abbrev pub dev_pm : ℕ
dev_pm = 3

abbrev pub dev_satapi : ℕ
dev_satapi = 4

abbrev pub px_st : ℕ
px_st = 2 ^ 0

abbrev pub px_fre : ℕ
px_fre = 2 ^ 4

abbrev pub px_fr : ℕ
px_fr = 2 ^ 14

abbrev pub px_cr : ℕ
px_cr = 2 ^ 15

-- `HBA_PxIS_TFES | HBA_PxIS_HBFS | HBA_PxIS_HBDS | HBA_PxIS_IFS`
abbrev pub px_errors : ℕ
px_errors = 2 ^ 30 + 2 ^ 29 + 2 ^ 28 + 2 ^ 27

-- `ATA_DEV_BUSY | ATA_DEV_DRQ`
abbrev pub busy : ℕ
busy = 0x80 + 0x08

abbrev pub ahci_base : ℕ
ahci_base = 0x400000

module _ (dev : Registers) where
  unfoldable pub get_reg : Port → Reg → Cmd Hba ℕ
  get_reg port reg s = ok (u32 (dev s port reg)) (record s { log = got port reg ∷ s.log })
