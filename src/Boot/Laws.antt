-- ===== src/Boot/Laws.antt =====
-- kmain up to the devices.
use dos_kernel.Common.{
  ℕ, ◌≡◌, ◌∙◌, refl, true, false, Bool, not, if◌then◌else◌, List, [], ◌∷◌, ◌++◌, ok, Run, Cmd, ◌>>◌,
  pure,
}
use dos_kernel.Memory.Machine.{Machine, hhdm_init}
use dos_kernel.Memory.Frame.FreeList.{HasFree}
use dos_kernel.Memory.Frame.Init.{Untouched, usable_frames}
use dos_kernel.Memory.Frame.Usable.{Ascending, frame_init-Leaves}
use dos_kernel.Memory.Paging.{paging_init}
use dos_kernel.X86.Gdt.{gdt_init}
use dos_kernel.X86.Idt.{idt_init}
use dos_kernel.Logging.Printk.{
  Framebuffer, Log, pos, codes, newline, log_debug, log_info, log_fatal, printk_level, printk_init,
}
use dos_kernel.Boot.{
  Loader, Image, Devices, System, Halt, unsupported, complete, message, info, on_memory,
  init_tables, init_memory, init_devices, kmain,
}
use dos_kernel.Boot.Prepared.{windowed}

-- A run that goes on as `rest` does once the tables of the processor are set up, the window at `off` is known and the frames
-- `frames` are free.
pub record Reached {T : Type 0} (image : Image) (off : ℕ) (frames : List ℕ)
    (rest : Cmd (System T) Halt) (s : System T) (r : Run (System T) Halt) : Type 0 where
  pub log : Log T
  pub memory : Machine
  pub free : HasFree memory frames
  pub kept : Untouched frames (windowed off s.apic.machine) memory
  pub runs :
      r
      ≡ rest (record s {
        log = log;
        gdt = gdt_init image.entries_at image.tss_at image.stack_at s.gdt;
        idt = idt_init image.stubs image.table_at (record s.idt { interrupts = 0 });
        apic = record s.apic { machine = memory };
      })

if_not :
    {S : Type 0} (b : Bool) (x y : Cmd S Halt) (s : S) → b ≡ true → (if not b then x else y) s ≡ y s
if_not b x y s e = rw e refl

if_so :
    {S : Type 0} (b : Bool) (x y : Cmd S Halt) (s : S)
    → b ≡ false
    → (if not b then x else y) s ≡ x s
if_so b x y s e = rw e refl

module _ {T Args : Type 0} (flanterm_fb_init : Framebuffer → T) (flanterm_write : ℕ → T → T)
    (format : (ℕ → Log T → Log T) → List ℕ → Args → Log T → Log T) (no_args revision : Args)
    (loader : Loader) (image : Image) (devices : Devices) where
  -- What is left of kmain behind frame_init: the page tables, the devices, and the last message.
  abbrev pub remaining : ℕ → Cmd (System T) Halt
  remaining fuel =
      (on_memory paging_init
        >> info flanterm_fb_init flanterm_write format no_args revision loader image devices
            (codes "Paging initialized"))
      >> (init_devices flanterm_fb_init flanterm_write format no_args revision loader image devices
            fuel
          >> (message flanterm_fb_init flanterm_write format no_args revision loader image devices
                log_debug (codes "Kernel init complete, halting") no_args
              >> pure complete))

  -- With a supported base revision, an empty list of frames, and a memory map as the boot protocol promises it (usable
  -- entries of whole pages, ascending from the second page on without an overlap and below 2 ^ 64), kmain comes to
  -- paging_init: the descriptor tables are those of gdt_init and idt_init, the window is the boot loader's, the
  -- frames of the usable entries are free, no word but their first ones was written, seen through that window, and nothing
  -- else changed but for the messages. It goes on with paging_init and the devices.
  pub kmain-Reached :
      (fuel : ℕ) (s : System T)
      → loader.supported ≡ true
      → Ascending loader.usable 0x1000 loader.map
      → s.apic.machine.page_list ≡ 0
      → Reached image loader.offset (usable_frames loader.usable loader.map []) (remaining fuel) s (
          kmain flanterm_fb_init flanterm_write format no_args revision loader image devices fuel s)
  unfolding kmain init_tables init_memory hhdm_init
  kmain-Reached fuel s there map empty =
      let say : List ℕ → Log T → Log T =
        λ text. printk_level flanterm_write format (pos log_info) (text ++ newline ∷ []) no_args in
      let told = say (codes "IDT initialized") (
        say (codes "GDT initialized") (
          say (codes "Bootloader base revision OK")
            (printk_init flanterm_fb_init loader.framebuffers s.log))) in
      let (t, framed, free, kept) =
        frame_init-Leaves loader.usable loader.map (windowed loader.offset s.apic.machine) map
          empty in
      record {
        log = say (codes "Frame allocator initialized") (say (codes "HHDM initialized") told);
        memory = t;
        free = free;
        kept = kept;
        runs = if_not loader.supported _ _ _ there ∙ rw framed refl;
      }

  -- Without it, kmain prints the fatal message and stops, and sets up nothing but the terminal.
  pub kmain_unsupported :
      (fuel : ℕ) (s : System T)
      → loader.supported ≡ false
      → kmain flanterm_fb_init flanterm_write format no_args revision loader image devices fuel s
        ≡ ok unsupported (record s {
          log =
              printk_level flanterm_write format
                (pos log_fatal)
                (codes "Bootloader does not support base revision: %lu" ++ newline ∷ [])
                revision
                (printk_init flanterm_fb_init loader.framebuffers s.log);
          idt = record s.idt { interrupts = 0 };
        })
  unfolding kmain
  kmain_unsupported fuel s n = if_so loader.supported _ _ _ n
