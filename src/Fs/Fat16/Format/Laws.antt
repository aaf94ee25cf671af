-- ===== src/Fs/Fat16/Format/Laws.antt =====
-- The sectors that fat16_format writes, in order, and the frame that it borrows.
use dos_kernel.Common.{ℕ, ◌+◌, ◌*◌, ◌≤◌, ◌<◌, ◌≡◌, ◌≢◌, ◌⊎◌, ◌∷◌, Run, ok}
use dos_kernel.Fs.Fat16.FatSize.Ends.{IsTableSize}
use dos_kernel.Fs.Fat16.Env.{Env, History, took_frame, gave_frame}
use dos_kernel.Fs.Fat16.Format.{frame_alloc, ahci}
use dos_kernel.Fs.Fat16.Format.Writes.{Writes, down}
use dos_kernel.Fs.Fat16.Format.Layout.{layout}

module _ (env : Env) (controller port : ℕ) where
  -- How fat16_format ends. Code 1 is a device of another type, 2 a volume that no size of a table suits, and 3 a
  -- missing frame; then nothing was done. Else the frame that was free was taken first and given back last, and between
  -- the two the sectors below `n` got what `layout` has for them, once each in rising order, up to the first write that
  -- failed; all lie in the volume. Code 0 is the whole layout (the boot record, two tables of the size that suits the
  -- volume and 32 sectors of root directory) without a failure; any other code is a failure of the last write.
  pub data Formatted (type total : ℕ) (h : History) : Run History ℕ → Type 0 where
    wrong_type : type ≢ ahci → Formatted type total h (ok 1 h)
    no_size : type ≡ ahci → (total < 32747) ⊎ (524235 ≤ total) → Formatted type total h (ok 2 h)
    no_frame :
        (fat_size : ℕ)
        → type ≡ ahci
        → IsTableSize total fat_size
        → env.frame_alloc h ≡ 0
        → Formatted type total h (ok 3 h)
    finished :
        (code fat_size n last : ℕ) {t : History}
        → type ≡ ahci
        → IsTableSize total fat_size
        → env.frame_alloc h ≢ 0
        → Writes env controller port
            (took_frame (env.frame_alloc h) ∷ h)
            (layout total fat_size)
            (down n)
            t
            last
        → n ≤ 2 * fat_size + 33
        → 2 * fat_size + 33 ≤ total
        → (code ≡ 0 → (n ≡ 2 * fat_size + 33) × (last ≡ 0))
        → (code ≢ 0 → last ≢ 0)
        → Formatted type total h (ok code (gave_frame (env.frame_alloc h) ∷ t))
