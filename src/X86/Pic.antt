-- ===== src/X86/Pic.antt =====
-- kernel/src/x86_64/pic.c: the two cascaded 8259 interrupt controllers.
pub mod Laws
use dos_kernel.Common.{ℕ, ◌-◌, ◌^◌, Bool, bit_and, bit_or, u8, u16, ◌<<<◌, ltb, leb, if◌then◌else◌}
use dos_kernel.Ports.{Device, Io, pure, ◌>>=◌, ◌>>◌, outb, inb, io_wait}

abbrev pub pic1_command : ℕ
pic1_command = 0x20

abbrev pub pic1_data : ℕ
pic1_data = 0x21

abbrev pub pic2_command : ℕ
pic2_command = 0xA0

abbrev pub pic2_data : ℕ
pic2_data = 0xA1

abbrev pub eoi : ℕ
eoi = 0x20

abbrev pub icw1_init : ℕ
icw1_init = 0x10

abbrev pub icw1_icw4 : ℕ
icw1_icw4 = 0x01

abbrev pub icw4_8086 : ℕ
icw4_8086 = 0x01

abbrev pub pic1_offset : ℕ
pic1_offset = 0x20

abbrev pub pic2_offset : ℕ
pic2_offset = 0x28

pub pic_init : Io (Unit {0})
pic_init = do
  outb pic1_command (bit_or icw1_init icw1_icw4)
  io_wait
  outb pic2_command (bit_or icw1_init icw1_icw4)
  io_wait
  outb pic1_data pic1_offset
  io_wait
  outb pic2_data pic2_offset
  io_wait
  outb pic1_data 0x04
  io_wait
  outb pic2_data 0x02
  io_wait
  outb pic1_data icw4_8086
  io_wait
  outb pic2_data icw4_8086
  io_wait
  outb pic1_data 0xFF
  outb pic2_data 0xFF

pub pic_send_eoi : ℕ → Io (Unit {0})
pic_send_eoi irq = do if leb 8 irq then outb pic2_command eoi else pure tt; outb pic1_command eoi

-- The port and the bit of a line; `irq -= 8` on the second controller.
pub line_port : ℕ → ℕ
line_port irq = if ltb irq 8 then pic1_data else pic2_data

pub line_bit : ℕ → ℕ
line_bit irq = if ltb irq 8 then irq else irq - 8

module _ (dev : Device) where
  pub pic_mask_irq : ℕ → Io (Unit {0})
  unfolding line_port line_bit
  pic_mask_irq irq = do
    value ← inb dev (line_port irq)
    outb (line_port irq) (u8 (bit_or value (1 <<< line_bit irq)))

  -- `~(1 << irq)` is taken on a 32-bit `int`.
  pub pic_unmask_irq : ℕ → Io (Unit {0})
  unfolding line_port line_bit
  pic_unmask_irq irq = do
    value ← inb dev (line_port irq)
    outb (line_port irq) (u8 (bit_and value (2 ^ 32 - 1 - 1 <<< line_bit irq)))

  pub pic_get_irr : Io ℕ
  pic_get_irr = do
    outb pic1_command 0x0A
    outb pic2_command 0x0A
    high ← inb dev pic2_command
    low ← inb dev pic1_command
    pure (u16 (bit_or (u16 high <<< 8) low))

  pub pic_get_isr : Io ℕ
  pic_get_isr = do
    outb pic1_command 0x0B
    outb pic2_command 0x0B
    high ← inb dev pic2_command
    low ← inb dev pic1_command
    pure (u16 (bit_or (u16 high <<< 8) low))

unfoldable pub pic_disable : Io (Unit {0})
pic_disable = do outb pic1_data 0xFF; outb pic2_data 0xFF
