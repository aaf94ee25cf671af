-- ===== src/Fs/Fat16/Mount/Laws.antt =====
-- fat16_init keeps the list of volumes in order and gives back what it borrows.
use dos_kernel.Fs.Fat16.Mount.Volumes.{
  IsMounts, Unique-snoc, erase_head, erase_second, make_ready_lem, open_blocks, open_frames,
  valid_snoc,
}
use dos_kernel.Common.{
  ℕ, ◌+◌, ◌≡◌, ◌≢◌, inl, inr, refl, sym, ap, ◌∙◌, arith, Option, none, some, List, [], ◌∷◌, ◌++◌,
  ◌==◌, Bool-cases, Option-cases, Run, ok, panicked, out_of_fuel, and_then, length, length-append,
}
use dos_kernel.Fs.Fat16.Volume.{Fat, fat_bytes, fat_of_sector, fat16_validate}
use dos_kernel.Fs.Fat16.Format.{ahci}
use dos_kernel.Fs.Fat16.Env.{Env, History, took_frame, gave_frame, took_block, gave_block, read}
use dos_kernel.Fs.Fat16.Mount.{
  Mounts, take_new, node_bytes, place, find_vol_id, kmalloc, kfree, fat_list_push_back, frame_alloc,
  frame_free, ahci_read, read_fat, take_volume, fat16_init,
}

module _ (env : Env) (controller port type : ℕ) (s : Mounts) where
  -- What was asked when sector 0 is read, the record in that sector, the block for it, what was asked when the record
  -- is in its block, and the node for it.
  abbrev pub asked : History
  asked = took_frame (env.frame_alloc s.log) ∷ s.log

  abbrev pub was_read : History
  was_read = read (place env controller port 0) ∷ asked

  abbrev pub volume : Fat
  volume = fat_of_sector (env.sector asked (place env controller port 0))

  abbrev pub block : ℕ
  block = env.kmalloc was_read fat_bytes

  abbrev pub in_block : History
  in_block = gave_frame (env.frame_alloc s.log) ∷ took_block block ∷ was_read

  abbrev pub node : ℕ
  node = env.kmalloc in_block node_bytes

  -- The record of the volume gets into a block: the device is of the one type there is, there is a frame, the drive
  -- reads sector 0, and there is a block.
  pub record Loads : Type 0 where
    pub frame : env.frame_alloc s.log ≢ 0
    pub disk : type ≡ ahci
    pub answers : env.ahci_read asked (place env controller port 0) ≡ 0
    pub fits : block ≢ 0

  -- What fat16_init leaves. An error changes nothing but what was asked, and gives everything back: code 1 when the
  -- record is not loaded, 2 when it is not valid, 3 when its id is held, and 4 when there is no node. Else the record
  -- in sector 0 is the last volume, in its node, which alone stays taken.
  pub data Inited : Run Mounts ℕ → Type 0 where
    unread :
        (h : History)
        → ¬ Loads
        → open_frames h ≡ open_frames s.log
        → open_blocks h ≡ open_blocks s.log
        → Inited (ok 1 (record s { ready = 1; log = h }))
    invalid :
        Loads
        → fat16_validate volume ≢ 0
        → open_frames (gave_block block ∷ in_block) ≡ open_frames s.log
        → open_blocks (gave_block block ∷ in_block) ≡ open_blocks s.log
        → Inited (ok 2 (record s { ready = 1; log = gave_block block ∷ in_block }))
    known :
        (other : ℕ)
        → Loads
        → fat16_validate volume ≡ 0
        → find_vol_id volume.ebr.vol_id s.volumes ≡ some other
        → open_frames (gave_block block ∷ in_block) ≡ open_frames s.log
        → open_blocks (gave_block block ∷ in_block) ≡ open_blocks s.log
        → Inited (ok 3 (record s { ready = 1; log = gave_block block ∷ in_block }))
    no_node :
        Loads
        → fat16_validate volume ≡ 0
        → find_vol_id volume.ebr.vol_id s.volumes ≡ none
        → node ≡ 0
        → open_frames (gave_block block ∷ in_block) ≡ open_frames s.log
        → open_blocks (gave_block block ∷ in_block) ≡ open_blocks s.log
        → Inited (ok 4 (record s { ready = 1; log = gave_block block ∷ in_block }))
    added :
        Loads
        → fat16_validate volume ≡ 0
        → find_vol_id volume.ebr.vol_id s.volumes ≡ none
        → node ≢ 0
        → open_frames (gave_block block ∷ took_block node ∷ in_block) ≡ open_frames s.log
        → open_blocks (gave_block block ∷ took_block node ∷ in_block) ≡ node ∷ open_blocks s.log
        → Inited (
            ok 0 (record s {
              volumes = s.volumes ++ (node, volume) ∷ [];
              size = s.size + 1;
              ready = 1;
              log = gave_block block ∷ took_block node ∷ in_block;
            }))

  -- What read_fat leaves.
  data WasRead : Run Mounts (Option (ℕ × Fat)) → Type 0 where
    nothing :
        (h : History)
        → ¬ Loads
        → open_frames h ≡ open_frames s.log
        → open_blocks h ≡ open_blocks s.log
        → WasRead (ok none (record s { log = h }))
    loaded :
        Loads
        → open_frames in_block ≡ open_frames s.log
        → open_blocks in_block ≡ block ∷ open_blocks s.log
        → WasRead (ok (some (block, volume)) (record s { log = in_block }))

module _ (env : Env) (controller port : ℕ) where
  frame_out : (p : ℕ) (h : History) → open_frames (gave_frame p ∷ took_frame p ∷ h) ≡ open_frames h
  unfolding open_frames
  frame_out p h = erase_head p (open_frames h)

  read_fat-WasRead :
      (type : ℕ) (s : Mounts)
      → WasRead env controller port type s (read_fat env controller port type s)
  unfolding read_fat frame_alloc frame_free ahci_read kmalloc open_frames open_blocks
  read_fat-WasRead type s =
      let p = env.frame_alloc s.log in
      let h₁ = asked env controller port type s in
      let h₂ = was_read env controller port type s in
      let same = erase_head p (open_frames s.log) in
      elim (Bool-cases (p == 0)) [
        | inl e ↦ rw e (nothing s.log (λ l. l.frame (ground arith)) refl refl)
        | inr e ↦
            rw (e, e)
              (elim (Bool-cases (type == ahci)) [
                | inr n ↦ rw n (nothing (gave_frame p ∷ h₁) (λ l. ground (arith, l.disk)) same refl)
                | inl y ↦
                    rw y (elim (Bool-cases (env.ahci_read h₁ (place env controller port 0) == 0)) [
                      | inr bad ↦
                          rw bad
                            (nothing (gave_frame p ∷ h₂) (λ l. ground (arith, l.answers)) same refl)
                      | inl good ↦ rw good (elim (Bool-cases (env.kmalloc h₂ fat_bytes == 0)) [
                        | inl none_left ↦
                            rw none_left
                              (nothing (gave_frame p ∷ h₂) (λ l. l.fits (ground arith)) same refl)
                        | inr got ↦
                            rw (got, got)
                              (loaded
                                (record {
                                  frame = ground arith;
                                  disk = ground arith;
                                  answers = ground arith;
                                  fits = ground arith;
                                })
                                same refl)
                      ])
                    ])
              ])
      ]

  block_out :
      (b : ℕ) (h : History) {l : List ℕ}
      → open_blocks h ≡ b ∷ l
      → open_blocks (gave_block b ∷ h) ≡ l
  unfolding open_blocks
  block_out b h e = rw e (erase_head b _)

  node_left :
      (b n : ℕ) (h : History) {l : List ℕ}
      → open_blocks h ≡ b ∷ l
      → open_blocks (gave_block b ∷ took_block n ∷ h) ≡ n ∷ l
  unfolding open_blocks
  node_left b n h e = rw e (erase_second b n _)

  -- With the block of the record held, the rest of fat16_init ends as `Inited` says.
  take_volume-Inited :
      (type : ℕ) (s : Mounts)
      → Loads env controller port type s
      → open_frames (in_block env controller port type s) ≡ open_frames s.log
      → open_blocks (in_block env controller port type s)
        ≡ block env controller port type s ∷ open_blocks s.log
      → Inited env controller port type s (
          take_volume env controller port
            (some (block env controller port type s, volume env controller port type s))
            (record s { ready = 1; log = in_block env controller port type s }))
  unfolding take_volume take_new kfree kmalloc fat_list_push_back open_frames
  take_volume-Inited type s load fr bl =
      let f = volume env controller port type s in
      let b = block env controller port type s in
      let h = in_block env controller port type s in
      let back = block_out b h bl in
      elim (Bool-cases (fat16_validate f == 0)) [
        | inr bad ↦ rw bad (invalid load (ground arith) fr back)
        | inl good ↦
            let valid : fat16_validate f ≡ 0 = ground arith in
            rw good (elim (Option-cases (find_vol_id f.ebr.vol_id s.volumes)) [
              | inr (other, here) ↦ rw here (known other load valid here fr back)
              | inl new ↦ rw new (elim (Bool-cases (env.kmalloc h node_bytes == 0)) [
                | inl e ↦ rw e (no_node load valid new (ground arith) fr back)
                | inr got ↦
                    rw (got, got, got) (added load valid new (ground arith) fr (node_left b _ h bl))
              ])
            ])
      ]

  after_read :
      (type : ℕ) (s : Mounts) (r : Run Mounts (Option (ℕ × Fat)))
      → WasRead env controller port type (record s { ready = 1 }) r
      → Inited env controller port type s (and_then r (take_volume env controller port))
  unfolding take_volume
  after_read type s r (nothing h no_load fr bl) =
      unread h
        (λ l.
          no_load (record { frame = l.frame; disk = l.disk; answers = l.answers; fits = l.fits }))
        fr bl
  after_read type s r (loaded l fr bl) =
      take_volume-Inited type s
        (record { frame = l.frame; disk = l.disk; answers = l.answers; fits = l.fits }) fr bl

  -- From a list in order, fat16_init returns one of four errors, each for its reason, and leaves the list alone: 1 when
  -- sector 0 of the drive does not get into a block, 2 when its record is not valid, 3 when its id is held, 4 when there
  -- is no node. Else it returns 0 and puts that record at the end of the list. It gives back the frame and the block
  -- it took; the node of an added volume stays taken.
  pub fat16_init-Inited :
      (type : ℕ) (s : Mounts)
      → IsMounts s
      → Inited env controller port type s (fat16_init env controller port type s)
  unfolding fat16_init
  fat16_init-Inited type s inv = rw (make_ready_lem env controller port s inv) (
      after_read type s (read_fat env controller port type (record s { ready = 1 }))
        (read_fat-WasRead type (record s { ready = 1 })))

-- It returns, and the list is in order then.
abbrev pub Kept : Run Mounts ℕ → Type 0
Kept (ok _ t) = IsMounts t
Kept panicked = ⊥
Kept out_of_fuel = ⊥

length_snoc : (vs : List (ℕ × Fat)) (v : ℕ × Fat) → length (vs ++ v ∷ []) ≡ length vs + 1
length_snoc vs v = length-append vs (v ∷ [])

refused-Kept : (s : Mounts) (h : History) → IsMounts s → IsMounts (record s { ready = 1; log = h })
refused-Kept s h inv = record {
  counted = inv.counted;
  valid = inv.valid;
  unique = inv.unique;
  fresh = λ e. absurd (ground (arith, e));
  flag = omega arith;
}

module _ (env : Env) (controller port type : ℕ) where
  kept : (s : Mounts) (r : Run Mounts ℕ) → IsMounts s → Inited env controller port type s r → Kept r
  kept s r inv (unread h _ _ _) = refused-Kept s h inv
  kept s r inv (invalid _ _ _ _) = refused-Kept s _ inv
  kept s r inv (known other _ _ _ _ _) = refused-Kept s _ inv
  kept s r inv (no_node _ _ _ _ _ _) = refused-Kept s _ inv
  kept s r inv (added _ good new _ _ _) = record {
    counted = ap (λ n. n + 1) inv.counted ∙ sym (length_snoc s.volumes _);
    valid = valid_snoc s.volumes _ _ inv.valid good;
    unique = Unique-snoc s.volumes _ _ inv.unique new;
    fresh = λ e. absurd (ground (arith, e));
    flag = omega arith;
  }

-- fat16_init returns, and keeps the list of volumes in order: its size is the number of volumes, each
-- record is valid, and no two have one id.
pub fat16_init-IsMounts :
    (env : Env) (controller port type : ℕ) (s : Mounts)
    → IsMounts s
    → Kept (fat16_init env controller port type s)
fat16_init-IsMounts env controller port type s inv =
    kept env controller port type s (fat16_init env controller port type s) inv
      (fat16_init-Inited env controller port type s inv)
