-- ===== src/Fs/Fat16/Env.antt =====
-- What fat16.c asks of the other parts of the kernel: frames (memory/frame.c), blocks
-- (memory/heap.c) and sectors (storage/ahci.c). A routine's answer depends on the kernel's whole
-- state, and that on all that was asked before; so an answer is a function of the history.
use dos_kernel.Common.{ℕ, List}
use dos_kernel.Fs.Fat16.Volume.{Sector}

-- A request for one sector: controller, port and sector number.
pub record Place : Type 0 where
  pub controller : ℕ
  pub port : ℕ
  pub lba : ℕ

pub data Event : Type 0 where
  took_frame : ℕ → Event
  gave_frame : ℕ → Event
  took_block : ℕ → Event
  gave_block : ℕ → Event
  read : Place → Event
  wrote : Place → Sector → Event

-- The latest first.
abbrev pub History : Type 0
History = List Event

pub record Env : Type 0 where
  pub frame_alloc : History → ℕ
  pub kmalloc : History → ℕ → ℕ
  pub ahci_read : History → Place → ℕ
  pub sector : History → Place → Sector
  pub ahci_write : History → Place → Sector → ℕ
