-- ===== src/Logging/Serial.antt =====
-- kernel/src/logging/serial.c: text to the debug port. The instruction `out` and the formatting of arguments are
-- parameters, the latter the routine of format.c.
use dos_kernel.Common.{ℕ, List, [], ◌∷◌, u8}

module _ {S : Type 0} (outb : ℕ → ℕ → S → S) where
  unfoldable pub write_char : ℕ → S → S
  write_char c s = outb 0xE9 (u8 c) s

  unfoldable pub write_str : List ℕ → S → S
  write_str [] s = s
  write_str (c ∷ cs) s = write_str cs (write_char c s)

  unfoldable pub serial_write_fmt :
      {Args : Type 0} → ((ℕ → S → S) → List ℕ → Args → S → S) → List ℕ → Args → S → S
  serial_write_fmt format fmt list s = format write_char fmt list s
