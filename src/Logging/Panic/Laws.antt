-- ===== src/Logging/Panic/Laws.antt =====
-- The whole output of panic.
use dos_kernel.Common.{ℕ, ◌≡◌, refl, ap, sym, ◌∙◌, List, [], ◌∷◌, ◌++◌, some}
use dos_kernel.Logging.Printk.{codes, pos, Log, log_fatal, checked_level, vprintk_level}
use dos_kernel.Logging.Printk.Buffer.{each, take}
use dos_kernel.Logging.Printk.Laws.{printk_level-row, vprintk_level-rows, each-append}
use dos_kernel.Logging.Printk.Rows.{row, rows, Plain}
use dos_kernel.Logging.Panic.{RegisterDump, dump_lines, print_dump, panic}

fatal_level : checked_level (pos log_fatal) ≡ some 4
unfolding checked_level
fatal_level = refl

-- The conversion of a register of so many digits after its name, `NAME=%#0..llX`.
abbrev shown : List ℕ → List ℕ → List ℕ
shown digits name = name ++ codes "=%#0" ++ digits ++ codes "llX"

-- The conversions of the registers in a row, two spaces between them.
abbrev shown_row : List ℕ → List (List ℕ × ℕ) → List ℕ
shown_row digits [] = []
shown_row digits ((name, value) ∷ []) = shown digits name
shown_row digits ((name, value) ∷ r ∷ more) =
    shown digits name ++ codes "  " ++ shown_row digits (r ∷ more)

abbrev values_of : List (List ℕ × ℕ) → List ℕ
values_of [] = []
values_of ((name, value) ∷ more) = value ∷ values_of more

-- A row of named registers.
abbrev register_row : List ℕ → List (List ℕ × ℕ) → List ℕ × List ℕ
register_row digits registers = (shown_row digits registers, values_of registers)

-- All 24 registers by their names: the general ones with 18 places in rows of four, the instruction pointer and the
-- flags, and the segments with 6 places.
abbrev pub all_registers : RegisterDump → List (List ℕ × List ℕ)
all_registers r =
    register_row (codes "18") (
      (codes "RAX", r.rax)
      ∷ (codes "RBX", r.rbx)
      ∷ (codes "RCX", r.rcx)
      ∷ (codes "RDX", r.rdx)
      ∷ [])
    ∷ register_row (codes "18") (
        (codes "RSI", r.rsi)
        ∷ (codes "RDI", r.rdi)
        ∷ (codes "RBP", r.rbp)
        ∷ (codes "RSP", r.rsp)
        ∷ [])
    ∷ register_row (codes "18") (
        (codes "R8 ", r.r8)
        ∷ (codes "R9 ", r.r9)
        ∷ (codes "R10", r.r10)
        ∷ (codes "R11", r.r11)
        ∷ [])
    ∷ register_row (codes "18") (
        (codes "R12", r.r12)
        ∷ (codes "R13", r.r13)
        ∷ (codes "R14", r.r14)
        ∷ (codes "R15", r.r15)
        ∷ [])
    ∷ register_row (codes "18") ((codes "RIP", r.rip) ∷ (codes "RFLAGS", r.rflags) ∷ [])
    ∷ register_row (codes "6") (
        (codes "CS", r.cs)
        ∷ (codes "SS", r.ss)
        ∷ (codes "DS", r.ds)
        ∷ (codes "ES", r.es)
        ∷ (codes "FS", r.fs)
        ∷ (codes "GS", r.gs)
        ∷ [])
    ∷ []

dump_lines-all_registers : (r : RegisterDump) → dump_lines r ≡ all_registers r
dump_lines-all_registers r = refl

module _ {T Args : Type 0} (flanterm_write : ℕ → T → T)
    (format : (ℕ → Log T → Log T) → List ℕ → Args → Log T → Log T) (args : List ℕ → Args)
    (text : List ℕ → Args → List ℕ)
    (writes : (w : ℕ → Log T → Log T) (fmt : List ℕ) (list : Args) (t : Log T)
      → format w fmt list t ≡ each w (text fmt list) t) where
  -- The rows of the messages of the registers.
  abbrev pub dumped : List (List ℕ × List ℕ) → List ℕ
  dumped [] = []
  dumped ((fmt, values) ∷ more) = row 4 (text fmt (args values)) ++ dumped more

  print_dump-rows :
      (more : List (List ℕ × List ℕ)) (s : Log T)
      → (print_dump flanterm_write format args more s).terminal
        ≡ each flanterm_write (dumped more) s.terminal
  unfolding print_dump
  print_dump-rows [] s = refl
  print_dump-rows ((fmt, values) ∷ more) s =
      let message = text fmt (args values) in
      let first =
        printk_level-row flanterm_write format fmt (args values) message
          (λ w t. writes w fmt (args values) t) (pos log_fatal) 4 s fatal_level in
      print_dump-rows more _
      ∙ ap (each flanterm_write (dumped more)) first
      ∙ sym (each-append flanterm_write (row 4 message) (dumped more) s.terminal)

  -- panic prints the first 1023 bytes of its message as rows of the level FATAL, one for each line, and then
  -- all 24 registers by name in six messages, each in a row of its own, when those bytes contain no NUL.
  pub panic-rows :
      (regs : RegisterDump) (fmt : List ℕ) (list : Args) (s : Log T)
      → Plain (take 1023 (text fmt list))
      → (panic flanterm_write format args regs fmt list s).terminal
        ≡ each flanterm_write
            (rows 4 (take 1023 (text fmt list)) ++ dumped (all_registers regs))
            s.terminal
  unfolding panic
  panic-rows regs fmt list s plain =
      let message = text fmt list in
      let first =
        vprintk_level-rows flanterm_write format fmt list message (λ w t. writes w fmt list t)
          (pos log_fatal) 4 s fatal_level plain in
      ap
        (λ lines.
          (print_dump flanterm_write format args lines
            (vprintk_level flanterm_write format (pos log_fatal) fmt list s)).terminal)
        (dump_lines-all_registers regs)
      ∙ print_dump-rows (all_registers regs) _
      ∙ ap (each flanterm_write (dumped (all_registers regs))) first
      ∙ sym (
          each-append flanterm_write (rows 4 (take 1023 message)) (dumped (all_registers regs))
            s.terminal)
