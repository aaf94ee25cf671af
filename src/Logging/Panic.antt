-- ===== src/Logging/Panic.antt =====
-- kernel/src/panic.c: what panic prints before it halts. The registers are what the instructions at its start
-- store.
pub mod Laws
use dos_kernel.Common.{ℕ, List, [], ◌∷◌}
use dos_kernel.Logging.Printk.{codes, pos, Log, log_fatal, printk_level, vprintk_level}

-- `register_dump_t`
pub record RegisterDump : Type 0 where
  pub rax : ℕ
  pub rbx : ℕ
  pub rcx : ℕ
  pub rdx : ℕ
  pub rsi : ℕ
  pub rdi : ℕ
  pub rbp : ℕ
  pub rsp : ℕ
  pub r8 : ℕ
  pub r9 : ℕ
  pub r10 : ℕ
  pub r11 : ℕ
  pub r12 : ℕ
  pub r13 : ℕ
  pub r14 : ℕ
  pub r15 : ℕ
  pub rip : ℕ
  pub rflags : ℕ
  pub cs : ℕ
  pub ss : ℕ
  pub ds : ℕ
  pub es : ℕ
  pub fs : ℕ
  pub gs : ℕ

-- The messages of the registers: the format and the arguments of each, in order.
abbrev pub dump_lines : RegisterDump → List (List ℕ × List ℕ)
dump_lines r =
    (
      codes "RAX=%#018llX  RBX=%#018llX  RCX=%#018llX  RDX=%#018llX",
      r.rax ∷ r.rbx ∷ r.rcx ∷ r.rdx ∷ [],
    )
    ∷ (
      codes "RSI=%#018llX  RDI=%#018llX  RBP=%#018llX  RSP=%#018llX",
      r.rsi ∷ r.rdi ∷ r.rbp ∷ r.rsp ∷ [],
    )
    ∷ (
      codes "R8 =%#018llX  R9 =%#018llX  R10=%#018llX  R11=%#018llX",
      r.r8 ∷ r.r9 ∷ r.r10 ∷ r.r11 ∷ [],
    )
    ∷ (
      codes "R12=%#018llX  R13=%#018llX  R14=%#018llX  R15=%#018llX",
      r.r12 ∷ r.r13 ∷ r.r14 ∷ r.r15 ∷ [],
    )
    ∷ (codes "RIP=%#018llX  RFLAGS=%#018llX", r.rip ∷ r.rflags ∷ [])
    ∷ (
      codes "CS=%#06llX  SS=%#06llX  DS=%#06llX  ES=%#06llX  FS=%#06llX  GS=%#06llX",
      r.cs ∷ r.ss ∷ r.ds ∷ r.es ∷ r.fs ∷ r.gs ∷ [],
    )
    ∷ []

-- `args` makes an argument list of values. The state is that of the endless loop at the end.
module _ {T Args : Type 0} (flanterm_write : ℕ → T → T)
    (format : (ℕ → Log T → Log T) → List ℕ → Args → Log T → Log T) (args : List ℕ → Args) where
  unfoldable pub print_dump : List (List ℕ × List ℕ) → Log T → Log T
  print_dump [] s = s
  print_dump ((fmt, values) ∷ more) s =
      print_dump more (printk_level flanterm_write format (pos log_fatal) fmt (args values) s)

  unfoldable pub panic : RegisterDump → List ℕ → Args → Log T → Log T
  panic panic_regs fmt ap s =
      print_dump (dump_lines panic_regs)
        (vprintk_level flanterm_write format (pos log_fatal) fmt ap s)
