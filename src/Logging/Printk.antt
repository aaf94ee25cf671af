-- ===== src/Logging/Printk.antt =====
-- kernel/src/logging/printk.c: the printing of messages by level. The terminal (flanterm) and the formatting of
-- arguments (format.c) are parameters. Texts are lists of bytes without the NUL behind them.
pub mod Buffer
pub mod Rows
pub mod Laws
use Prim.Native.Char.{code}
use Prim.Native.String.{String}
use dos_kernel.Common.{
  ℕ, zero, suc, ◌+◌, ◌-◌, Bool, true, false, not, ◌&&◌, ◌||◌, Option, none, some, List, [], ◌∷◌,
  ltb, ◌==◌, if◌then◌else◌, get_or,
}

-- The bytes of an ASCII literal.
abbrev pub codes : String → List ℕ
codes String.[] = []
codes (String.◌∷◌ c s) = code c ∷ codes s

-- An `int`.
pub data ℤ : Type 0 where
  pos : ℕ → ℤ
  negsuc : ℕ → ℤ

abbrev pub below : ℤ → ℕ → Bool
below (pos n) k = ltb n k
below (negsuc n) k = true

abbrev pub above : ℤ → ℕ → Bool
above (pos n) k = ltb k n
above (negsuc n) k = false

-- The index that a level is, once it was checked.
abbrev pub index_of : ℤ → ℕ
index_of (pos n) = n
index_of (negsuc n) = 0

abbrev pub log_debug : ℕ
log_debug = 0

abbrev pub log_info : ℕ
log_info = 1

abbrev pub log_warn : ℕ
log_warn = 2

abbrev pub log_error : ℕ
log_error = 3

abbrev pub log_fatal : ℕ
log_fatal = 4

abbrev pub log_level : ℕ
log_level = log_debug

abbrev pub level_prefix : List (List ℕ)
level_prefix =
    codes "[DEBUG] "
    ∷ codes "[INFO]  "
    ∷ codes "[WARN]  "
    ∷ codes "[ERROR] "
    ∷ codes "[FATAL] "
    ∷ []

abbrev pub level_color : List (List ℕ)
level_color =
    (27 ∷ codes "[36m")
    ∷ (27 ∷ codes "[32m")
    ∷ (27 ∷ codes "[33m")
    ∷ (27 ∷ codes "[31m")
    ∷ (27 ∷ codes "[35m")
    ∷ []

abbrev pub ansi_reset : List ℕ
ansi_reset = 27 ∷ codes "[0m"

abbrev pub newline : ℕ
newline = 10

abbrev pub carriage_return : ℕ
carriage_return = 13

-- The values of the response of the boot loader that printk_init passes on.
pub record Framebuffer : Type 0 where
  pub address : ℕ
  pub width : ℕ
  pub height : ℕ
  pub pitch : ℕ
  pub red_mask : ℕ × ℕ
  pub green_mask : ℕ × ℕ
  pub blue_mask : ℕ × ℕ

-- ft_ctx with all that it stands for, and the two statics of the buffer.
pub record Log (T : Type 0) : Type 0 where
  pub terminal : T
  pub fmt_buf : ℕ → ℕ
  pub fmt_buf_pos : ℕ

-- The first tests of a level: `none` is the early return.
unfoldable pub checked_level : ℤ → Option ℕ
checked_level level =
    if below level log_level
    then none
    else some (if below level log_debug || above level log_fatal then log_debug else index_of level)

-- `fmt_buf` has 1024 bytes.
unfoldable pub buf_write_char : {T : Type 0} → ℕ → Log T → Log T
buf_write_char c s =
    if ltb s.fmt_buf_pos (1024 - 1)
    then (let pos = s.fmt_buf_pos in
        record s { fmt_buf = λ i. if i == pos then c else s.fmt_buf i; fmt_buf_pos = pos + 1 })
    else s

-- The text goes to the buffer first, with a NUL behind it.
unfoldable pub fill_buffer :
    {T Args : Type 0}
    → ((ℕ → Log T → Log T) → List ℕ → Args → Log T → Log T)
    → List ℕ
    → Args
    → Log T
    → Log T
fill_buffer format fmt ap s =
    let filled = format buf_write_char fmt ap (record s { fmt_buf_pos = 0 }) in
    let pos = filled.fmt_buf_pos in
    record filled { fmt_buf = λ i. if i == pos then 0 else filled.fmt_buf i }

-- `framebuffer_request.response`, NULL as `none`, and flanterm_fb_init.
unfoldable pub printk_init :
    {T : Type 0} → (Framebuffer → T) → Option (List Framebuffer) → Log T → Log T
printk_init flanterm_fb_init none s = s
printk_init flanterm_fb_init (some []) s = s
printk_init flanterm_fb_init (some (fb ∷ fbs)) s = record s { terminal = flanterm_fb_init fb }

module _ {T : Type 0} (flanterm_write : ℕ → T → T) where
  unfoldable pub print_char : ℕ → Log T → Log T
  print_char c s = record s { terminal = flanterm_write c s.terminal }

  unfoldable pub print_str : List ℕ → Log T → Log T
  print_str [] s = s
  print_str (c ∷ cs) s = print_str cs (print_char c s)

  -- The color, the prefix and the reset.
  unfoldable pub print_banner : ℕ → Log T → Log T
  print_banner level s =
      print_str ansi_reset
        (print_str (get_or level_prefix level []) (print_str (get_or level_color level []) s))

  -- `for (i = from; rounds more; i++)`: the buffer, with a banner after each newline that more text follows.
  unfoldable pub print_loop : ℕ → ℕ → ℕ → Log T → Log T
  print_loop zero level i s = s
  print_loop (suc rounds) level i s = print_loop rounds level (i + 1) (
      if s.fmt_buf i == newline && not (s.fmt_buf (i + 1) == 0)
      then print_banner level (print_char carriage_return (print_char newline s))
      else print_char (s.fmt_buf i) s)

  module _ {Args : Type 0} (format : (ℕ → Log T → Log T) → List ℕ → Args → Log T → Log T) where
    unfoldable pub printk : List ℕ → Args → Log T → Log T
    printk fmt list s = format print_char fmt list (print_char carriage_return s)

    unfoldable pub vprintk : List ℕ → Args → Log T → Log T
    vprintk fmt ap s = format print_char fmt ap (print_char carriage_return s)

    unfoldable pub printk_level : ℤ → List ℕ → Args → Log T → Log T
    printk_level level fmt list s = elim (checked_level level) [
      | none ↦ s
      | some k ↦
          print_char newline
            (format print_char fmt list (print_banner k (print_char carriage_return s)))
    ]

    unfoldable pub vprintk_level : ℤ → List ℕ → Args → Log T → Log T
    vprintk_level level fmt ap s = elim (checked_level level) [
      | none ↦ s
      | some k ↦
          let filled = fill_buffer format fmt ap s in
          print_char newline
            (print_loop filled.fmt_buf_pos k 0 (print_banner k (print_char carriage_return filled)))
    ]
