-- ===== src/Ports.antt =====
-- The port instructions of kernel/include/commands.h. What stands behind a port is hardware, so the
-- answer to a read is a parameter: a function of the port and of all that was done before.
use dos_kernel.Common.{ℕ, List, ◌∷◌, u8, u16, u32}

-- One port instruction, with the value that it moved.
pub data Access : Type 0 where
  out8 : ℕ → ℕ → Access
  out16 : ℕ → ℕ → Access
  out32 : ℕ → ℕ → Access
  in8 : ℕ → ℕ → Access
  in16 : ℕ → ℕ → Access
  in32 : ℕ → ℕ → Access

-- What has been done, the latest first.
abbrev pub History : Type 0
History = List Access

abbrev pub Device : Type 0
Device = History → ℕ → ℕ

-- A routine over the ports of a device: its result and the history after it.
abbrev pub Io : Type 0 → Type 0
Io A = History → A × History

abbrev pub pure : {A : Type 0} → A → Io A
pure a h = (a, h)

infixl 5 ◌>>=◌ ◌>>◌
abbrev pub ◌>>=◌ : {A B : Type 0} → Io A → (A → Io B) → Io B
◌>>=◌ m k h = k (m h).0 (m h).1

abbrev pub ◌>>◌ : {A B : Type 0} → Io A → Io B → Io B
m >> k = m >>= λ _. k

abbrev pub outb : ℕ → ℕ → Io (Unit {0})
outb port val h = (tt, out8 port val ∷ h)

abbrev pub outw : ℕ → ℕ → Io (Unit {0})
outw port val h = (tt, out16 port val ∷ h)

abbrev pub outl : ℕ → ℕ → Io (Unit {0})
outl port val h = (tt, out32 port val ∷ h)

module _ (dev : Device) where
  abbrev pub inb : ℕ → Io ℕ
  inb port h = (u8 (dev h port), in8 port (u8 (dev h port)) ∷ h)

  abbrev pub inw : ℕ → Io ℕ
  inw port h = (u16 (dev h port), in16 port (u16 (dev h port)) ∷ h)

  abbrev pub inl : ℕ → Io ℕ
  inl port h = (u32 (dev h port), in32 port (u32 (dev h port)) ∷ h)

abbrev pub io_wait : Io (Unit {0})
io_wait = outb 0x80 0x00
