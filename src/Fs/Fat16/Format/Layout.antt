-- ===== src/Fs/Fat16/Format/Layout.antt =====
-- What fat16_format writes of a volume, sector by sector.
use dos_kernel.Common.{
  ℕ, zero, suc, ◌+◌, ◌-◌, ◌*◌, ◌^◌, ◌≤◌, ◌<◌, ◌≡◌, ◌≢◌, refl, arith, ◌==◌, if◌then◌else◌, pure, u32,
}
use dos_kernel.Fs.Fat16.FatSize.{root_dir_sectors, reserved_sectors, num_fats}
use dos_kernel.Fs.Fat16.Volume.{Sector}
use dos_kernel.Fs.Fat16.Boot.{blank, boot_sector, fat_head}
use dos_kernel.Fs.Fat16.Env.{Env, History}
use dos_kernel.Fs.Fat16.Format.{write_range, write_table, write_tables, write_volume}
use dos_kernel.Fs.Fat16.Format.Writes.{
  Writes, Ran, range-Ran, then-Ran, write-Ran, writes_at, status_zero, status_bad, down,
}

-- What belongs into each sector of a fresh volume: the boot record, the head of the table, and zeros.
abbrev pub layout : ℕ → ℕ → ℕ → Sector
layout total fat_size zero = boot_sector total fat_size
layout total fat_size (suc zero) = fat_head
layout total fat_size (suc (suc lba)) = blank

module _ (env : Env) (controller port : ℕ) (h : History) (at : ℕ → Sector) where
  table-Ran :
      (fs k : ℕ) (sector : Sector) (t : History)
      → fs ≢ 0
      → k + fs < 2 ^ 32
      → at k ≡ sector
      → ((j : ℕ) → k < j → at j ≡ blank)
      → Writes env controller port h at (down k) t 0
      → Ran env controller port h at k (k + fs) (write_table env controller port fs k sector t)
  unfolding write_table
  table-Ran fs k sector t nz lt e blanks w =
      let first = write-Ran env controller port h at k sector t e w in
      then-Ran env controller port h at k (suc k) (k + fs) _
        (λ status.
          if status == 0 then write_range env controller port 6 (fs - 1) k 1 blank else pure 5)
        (omega arith) first
        (λ z. rw (status_zero env controller port h at first.code z) (
          let to : suc k + (fs - 1) ≡ k + fs = omega arith in
          rw to at (
            range-Ran env controller port h at 6 (fs - 1) k 1 (suc k) first.after (omega arith)
              (omega arith) (omega arith) blanks (writes_at env controller port h at first z))))
        (λ bad. (5, omega arith, rw (status_bad env controller port h at first.code bad) refl))

  tables-Ran :
      (rounds fs i k : ℕ) (sector : Sector) (t : History)
      → fs ≢ 0
      → 1 + i * fs ≡ k
      → k + rounds * fs < 2 ^ 32
      → at k ≡ sector
      → ((j : ℕ) → k < j → at j ≡ blank)
      → Writes env controller port h at (down k) t 0
      → Ran env controller port h at k
          (k + rounds * fs)
          (write_tables env controller port rounds fs i sector t)
  unfolding write_tables
  tables-Ran zero fs i k sector t nz e lt first_one blanks w = record {
    code = 0;
    after = t;
    n = k;
    last = 0;
    runs = refl;
    writes = w;
    above = omega arith;
    upto = omega arith;
    complete = λ z. omega arith;
    good = λ z. refl;
    bad = λ b. absurd (b refl);
  }
  tables-Ran (suc rounds) fs i k sector t nz e lt first_one blanks w =
      let place_of : u32 (1 + i * fs) ≡ k = omega arith in
      let to : k + fs + rounds * fs ≡ k + suc rounds * fs = omega arith in
      let first = table-Ran fs k sector t nz (omega arith) first_one blanks w in
      rw place_of (
        then-Ran env controller port h at k (k + fs) (k + suc rounds * fs) _
          (λ code.
            if code == 0
            then write_tables env controller port rounds fs (i + 1) blank
            else pure code)
          (omega arith) first
          (λ z. rw (status_zero env controller port h at first.code z) (
            rw to at (
              tables-Ran rounds fs (i + 1) (k + fs) blank first.after nz (omega arith) (omega arith)
                (blanks (k + fs) (omega arith)) (λ j l. blanks j (omega arith))
                (writes_at env controller port h at first z))))
          (λ bad. (first.code, bad, rw (status_bad env controller port h at first.code bad) refl)))

  root-Ran :
      (fs : ℕ) (t : History)
      → 2 * fs + 33 < 2 ^ 32
      → ((j : ℕ) → 1 + 2 * fs ≤ j → at j ≡ blank)
      → Writes env controller port h at (down (1 + 2 * fs)) t 0
      → Ran env controller port h at (1 + 2 * fs) (2 * fs + 33) (
          write_range env controller port 7 root_dir_sectors
            (u32 (reserved_sectors + num_fats * fs))
            0
            blank
            t)
  root-Ran fs t lt blanks w =
      let place_of : u32 (1 + 2 * fs) ≡ 1 + 2 * fs = omega arith in
      let to : 1 + 2 * fs + 32 ≡ 2 * fs + 33 = omega arith in
      rw place_of (
        rw to at (
          range-Ran env controller port h at 7 32 (1 + 2 * fs) 0 (1 + 2 * fs) t (omega arith)
            (omega arith) (omega arith) blanks w))

  pub volume-Ran :
      (total fs : ℕ) (t : History)
      → fs ≢ 0
      → 2 * fs + 33 < 2 ^ 32
      → at 0 ≡ boot_sector total fs
      → at 1 ≡ fat_head
      → ((j : ℕ) → 1 < j → at j ≡ blank)
      → Writes env controller port h at (down 0) t 0
      → Ran env controller port h at 0 (2 * fs + 33) (write_volume env controller port total fs t)
  unfolding write_volume
  volume-Ran total fs t nz lt e0 e1 blanks w =
      let boot = write-Ran env controller port h at 0 (boot_sector total fs) t e0 w in
      then-Ran env controller port h at 0 1 (2 * fs + 33) _ _ (omega arith) boot
        (λ z. rw (status_zero env controller port h at boot.code z) (
          let both =
            tables-Ran 2 fs 0 1 fat_head boot.after nz (omega arith) (omega arith) e1 blanks
              (writes_at env controller port h at boot z) in
          then-Ran env controller port h at 1 (1 + 2 * fs) (2 * fs + 33) _ _ (omega arith) both
            (λ y. rw (status_zero env controller port h at both.code y) (
              root-Ran fs both.after lt (λ j l. blanks j (omega arith))
                (writes_at env controller port h at both y)))
            (λ bad. (both.code, bad, rw (status_bad env controller port h at both.code bad) refl))))
        (λ bad. (4, omega arith, rw (status_bad env controller port h at boot.code bad) refl))

pub layout-blank : (total fs j : ℕ) → 1 < j → layout total fs j ≡ blank
layout-blank total fs zero h = absurd (omega arith)
layout-blank total fs (suc zero) h = absurd (omega arith)
layout-blank total fs (suc (suc j)) h = refl
