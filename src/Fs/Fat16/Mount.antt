-- ===== src/Fs/Fat16/Mount.antt =====
-- The list of volumes, read_fat and fat16_init of kernel/src/fs/fat16.c. The nodes of the
-- list are reached through it alone, so it is a list of node addresses with their records.
pub mod Volumes
pub mod Laws
use dos_kernel.Common.{
  ℕ, zero, suc, ◌+◌, Bool, not, Option, none, some, List, [], ◌∷◌, ◌++◌, ◌==◌, if◌then◌else◌, Run,
  Cmd, ok, pure, ◌>>=◌, ◌>>◌, length,
}
use dos_kernel.Fs.Fat16.Volume.{Fat, fat_bytes, fat_of_sector, fat16_validate}
use dos_kernel.Fs.Fat16.Env.{
  Env, History, Event, Place, took_frame, gave_frame, took_block, gave_block, read,
}
use dos_kernel.Fs.Fat16.Format.{ahci}

-- The statics fat16_volumes and fat16_volumes_ready, and what was asked of the other parts.
pub record Mounts : Type 0 where
  pub volumes : List (ℕ × Fat)
  pub size : ℕ
  pub ready : ℕ
  pub log : History

-- `sizeof(fat_node)`: the record and, at the next multiple of 8, the link.
abbrev pub node_bytes : ℕ
node_bytes = 72

unfoldable pub fat_list_init : Cmd Mounts (Unit {0})
fat_list_init s = ok tt (record s { volumes = []; size = 0 })

unfoldable pub find_vol_id : ℕ → List (ℕ × Fat) → Option ℕ
find_vol_id vol_id [] = none
find_vol_id vol_id ((node, f) ∷ rest) =
    if f.ebr.vol_id == vol_id then some node else find_vol_id vol_id rest

-- kfree of each node, the first one first.
unfoldable pub free_nodes : List (ℕ × Fat) → History → History
free_nodes [] h = h
free_nodes ((node, f) ∷ rest) h = free_nodes rest (gave_block node ∷ h)

unfoldable pub fat_list_free : Cmd Mounts (Unit {0})
fat_list_free s = ok tt (record s { volumes = []; size = 0; log = free_nodes s.volumes s.log })

module _ (env : Env) where
  unfoldable pub kmalloc : ℕ → Cmd Mounts ℕ
  kmalloc size s =
      let p = env.kmalloc s.log size in
      if p == 0 then ok 0 s else ok p (record s { log = took_block p ∷ s.log })

  unfoldable pub kfree : ℕ → Cmd Mounts (Unit {0})
  kfree p s = ok tt (record s { log = gave_block p ∷ s.log })

  -- The node's address, or 0.
  unfoldable pub fat_list_push_back : Fat → Cmd Mounts ℕ
  fat_list_push_back f = do
    node ← kmalloc node_bytes
    if node == 0 then pure 0 else λ s.
        ok node (record s { volumes = s.volumes ++ (node, f) ∷ []; size = s.size + 1 })

  unfoldable pub frame_alloc : Cmd Mounts ℕ
  frame_alloc s =
      let p = env.frame_alloc s.log in
      if p == 0 then ok 0 s else ok p (record s { log = took_frame p ∷ s.log })

  unfoldable pub frame_free : ℕ → Cmd Mounts (Unit {0})
  frame_free p s = ok tt (record s { log = gave_frame p ∷ s.log })

  module _ (controller port : ℕ) where
    abbrev pub place : ℕ → Place
    place lba = record { controller = controller; port = port; lba = lba }

    unfoldable pub ahci_read : ℕ → Cmd Mounts ℕ
    ahci_read lba s =
        ok (env.ahci_read s.log (place lba)) (record s { log = read (place lba) ∷ s.log })

    -- The block that holds the boot record, with the record, or `none`.
    unfoldable pub read_fat : ℕ → Cmd Mounts (Option (ℕ × Fat))
    read_fat type = do
      phys ← frame_alloc
      if phys == 0
          then pure none
          else if not (type == ahci)
          then (do frame_free phys; pure none)
          else do
            before ← (λ s. ok s.log s)
            status ← ahci_read 0
            if not (status == 0) then (do frame_free phys; pure none) else do
              f ← kmalloc fat_bytes
              if f == 0 then (do frame_free phys; pure none) else do
                frame_free phys
                pure (some (f, fat_of_sector (env.sector before (place 0))))

    -- The part of fat16_init behind the search for the id, with what the search found.
    unfoldable pub take_new : ℕ → Fat → Option ℕ → Cmd Mounts ℕ
    take_new block f (some _) = do kfree block; pure 3
    take_new block f none = do
      node ← fat_list_push_back f
      kfree block
      pure (if node == 0 then 4 else 0)

    -- The part of fat16_init behind read_fat.
    unfoldable pub take_volume : Option (ℕ × Fat) → Cmd Mounts ℕ
    take_volume none = pure 1
    take_volume (some (block, f)) = do
      found ← (λ s. ok (find_vol_id f.ebr.vol_id s.volumes) s)
      if not (fat16_validate f == 0) then (do kfree block; pure 2) else take_new block f found

    unfoldable pub make_ready : Cmd Mounts (Unit {0})
    make_ready s =
        if s.ready == 0 then ok tt (record s { volumes = []; size = 0; ready = 1 }) else ok tt s

    unfoldable pub fat16_init : ℕ → Cmd Mounts ℕ
    fat16_init type = do make_ready; found ← read_fat type; take_volume found
