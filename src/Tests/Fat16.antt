-- ===== src/Tests/Fat16.antt =====
-- The FAT16 theorems at concrete volumes and drives.
use dos_kernel.Common.{ℕ, ◌≡◌, refl, inl, inr, arith, [], none, some, ◌==◌, if◌then◌else◌}
use dos_kernel.Fs.Fat16.FatSize.{Swings, compute_fat_size}
use dos_kernel.Fs.Fat16.FatSize.Ends.{Sized, compute_fat_size_ends, compute_fat_size-Swings}
use dos_kernel.Fs.Fat16.Volume.{fat_of_sector, fat16_validate}
use dos_kernel.Fs.Fat16.Boot.{boot_sector}
use dos_kernel.Fs.Fat16.Boot.Laws.{boot_sector-valid}
use dos_kernel.Fs.Fat16.Env.{Env}
use dos_kernel.Fs.Fat16.Mount.{Mounts, fat16_init}
use dos_kernel.Fs.Fat16.Mount.Volumes.{IsMounts}
use dos_kernel.Fs.Fat16.Mount.Laws.{Inited, Kept, fat16_init-Inited, fat16_init-IsMounts}

steady_65536 : ¬ Swings 65536
steady_65536 (k, lo, hi, inl e) = omega arith
steady_65536 (k, lo, hi, inr e) = omega arith

compute_fat_size_ends_example : (r : ℕ) × (compute_fat_size 4 65536 ≡ some r) × Sized 65536 r
compute_fat_size_ends_example = compute_fat_size_ends 0 65536 (omega arith) steady_65536

compute_fat_size-Swings_example : compute_fat_size 50 32841 ≡ none
compute_fat_size-Swings_example =
    compute_fat_size-Swings 50 32841 (16, omega arith, omega arith, inl refl)

boot_sector-valid_example :
    let f = fat_of_sector (boot_sector 65536 64) in
    (fat16_validate f ≡ 0)
    × (f.bpb.fat_s ≡ 64)
    × ((if f.bpb.ts16 == 0 then f.bpb.ts32 else f.bpb.ts16) ≡ 65536)
    × (f.bpb.bps ≡ 512)
    × (f.bpb.rsc ≡ 1)
    × (f.bpb.num_fats ≡ 2)
    × (f.bpb.rec ≡ 512)
boot_sector-valid_example =
    boot_sector-valid 65536 64 (omega arith) (omega arith) (omega arith) (omega arith)

-- A kernel whose drive reads the boot sector of a fresh volume and takes every write.
abbrev pub steady_env : Env
steady_env = record {
  frame_alloc = λ h. 0x5000;
  kmalloc = λ h size. 0x9000;
  ahci_read = λ h place. 0;
  sector = λ h place. boot_sector 65536 64;
  ahci_write = λ h place sector. 0;
}

abbrev pub no_mounts : Mounts
no_mounts = record { volumes = []; size = 0; ready = 0; log = [] }

no_mounts-IsMounts : IsMounts no_mounts
no_mounts-IsMounts = record {
  counted = refl;
  valid = tt;
  unique = tt;
  fresh = λ e. refl;
  flag = omega arith;
}

fat16_init-Inited_example :
    Inited steady_env 0 0 0 no_mounts (fat16_init steady_env 0 0 0 no_mounts)
fat16_init-Inited_example = fat16_init-Inited steady_env 0 0 0 no_mounts no_mounts-IsMounts

fat16_init-IsMounts_example : Kept (fat16_init steady_env 0 0 0 no_mounts)
fat16_init-IsMounts_example = fat16_init-IsMounts steady_env 0 0 0 no_mounts no_mounts-IsMounts
