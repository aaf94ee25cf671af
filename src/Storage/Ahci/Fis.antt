-- ===== src/Storage/Ahci/Fis.antt =====
-- The command FIS as the controller reads it, FIS_REG_H2D of kernel/include/storage/ahci.h.
use dos_kernel.Common.{ℕ, ◌+◌, ◌*◌, ◌/◌, ◌%◌, ◌^◌, ◌<◌, ◌≡◌, refl, arith}
use dos_kernel.Common.Bits.{bit_and_mask}
use dos_kernel.Storage.Ahci.{Bytes}
use dos_kernel.Storage.Ahci.Command.{fis}

pub record FisRegH2d : Type 0 where
  pub fis_type : ℕ
  pub pmport : ℕ
  pub rsv0 : ℕ
  pub c : ℕ
  pub command : ℕ
  pub featurel : ℕ
  pub lba0 : ℕ
  pub lba1 : ℕ
  pub lba2 : ℕ
  pub device : ℕ
  pub lba3 : ℕ
  pub lba4 : ℕ
  pub lba5 : ℕ
  pub featureh : ℕ
  pub countl : ℕ
  pub counth : ℕ
  pub icc : ℕ
  pub control : ℕ

-- The bytes from `a` on as the structure.
unfoldable pub fis_at : Bytes → ℕ → FisRegH2d
fis_at m a = record {
  fis_type = m a;
  pmport = m (a + 1) % 2 ^ 4;
  rsv0 = m (a + 1) / 2 ^ 4 % 2 ^ 3;
  c = m (a + 1) / 2 ^ 7;
  command = m (a + 2);
  featurel = m (a + 3);
  lba0 = m (a + 4);
  lba1 = m (a + 5);
  lba2 = m (a + 6);
  device = m (a + 7);
  lba3 = m (a + 8);
  lba4 = m (a + 9);
  lba5 = m (a + 10);
  featureh = m (a + 11);
  countl = m (a + 12);
  counth = m (a + 13);
  icc = m (a + 14);
  control = m (a + 15);
}

-- The sector and the number of sectors that the structure names.
abbrev pub sector_of : FisRegH2d → ℕ
sector_of f =
    f.lba0 + f.lba1 * 2 ^ 8 + f.lba2 * 2 ^ 16 + f.lba3 * 2 ^ 24 + f.lba4 * 2 ^ 32 + f.lba5 * 2 ^ 40

abbrev pub count_of : FisRegH2d → ℕ
count_of f = f.countl + f.counth * 2 ^ 8

-- The bytes that stand for numbers, and the others.
module _ (a command sector count : ℕ) (m : Bytes) where
  abbrev built : Bytes
  built = fis a command sector count m

  lba_bytes :
      (built (a + 4) ≡ sector % 2 ^ 8)
      × (built (a + 5) ≡ sector / 2 ^ 8 % 2 ^ 8)
      × (built (a + 6) ≡ sector / 2 ^ 16 % 2 ^ 8)
      × (built (a + 8) ≡ sector / 2 ^ 24 % 2 ^ 8)
      × (built (a + 9) ≡ 0)
      × (built (a + 10) ≡ 0)
  unfolding fis
  lba_bytes = (
    ground (arith, bit_and_mask 8 (sector / 2 ^ 0)),
    ground (arith, bit_and_mask 8 (sector / 2 ^ 8)),
    ground (arith, bit_and_mask 8 (sector / 2 ^ 16)),
    ground (arith, bit_and_mask 8 (sector / 2 ^ 24)),
    ground arith,
    ground arith,
  )

  count_bytes : (built (a + 12) ≡ count % 2 ^ 8) × (built (a + 13) ≡ count / 2 ^ 8 % 2 ^ 8)
  unfolding fis
  count_bytes =
      (ground (arith, bit_and_mask 8 count), ground (arith, bit_and_mask 8 (count / 2 ^ 8)))

  first_bytes :
      m (a + 1) ≡ 0
      → command < 2 ^ 8
      → (built a ≡ 0x27)
        × (built (a + 1) ≡ 2 ^ 7)
        × (built (a + 2) ≡ command)
        × (built (a + 7) ≡ 2 ^ 6)
  unfolding fis
  first_bytes blank small = (ground arith, ground (arith, blank), ground arith, ground arith)

-- The FIS that build puts over cleared memory is read back as a command from the host, with the command, the
-- sector and the number of sectors that it was made from.
pub fis-fis_at :
    (a command sector count : ℕ) (m : Bytes)
    → m (a + 1) ≡ 0
    → command < 2 ^ 8
    → sector < 2 ^ 32
    → count < 2 ^ 16
    → let f = fis_at (fis a command sector count m) a in
      (f.fis_type ≡ 0x27)
      × (f.c ≡ 1)
      × (f.pmport ≡ 0)
      × (f.command ≡ command)
      × (f.device ≡ 2 ^ 6)
      × (sector_of f ≡ sector)
      × (count_of f ≡ count)
unfolding fis_at
fis-fis_at a command sector count m blank small hs hc =
    let (type, flags, command_byte, device) = first_bytes a command sector count m blank small in
    let (l0, l1, l2, l3, l4, l5) = lba_bytes a command sector count m in
    let (c0, c1) = count_bytes a command sector count m in
    (type, rw flags refl, rw flags refl, command_byte, device, omega arith, omega arith)
