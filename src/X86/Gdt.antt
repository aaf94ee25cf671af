-- ===== src/X86/Gdt.antt =====
-- kernel/src/x86_64/gdt.c: segment descriptors, the task state segment and the table.
pub mod Laws
use dos_kernel.Common.{
  ℕ, zero, suc, ◌+◌, ◌-◌, ◌*◌, ◌≡◌, refl, bit_and, bit_or, ◌>>>◌, u16, u32, u64, List, [], ◌∷◌, ◌/◌,
  ◌%◌, ◌^◌, ◌==◌, if◌then◌else◌,
}

pub record GdtEntry : Type 0 where
  pub limit_low : ℕ
  pub base_low : ℕ
  pub base_middle : ℕ
  pub access : ℕ
  pub granularity : ℕ
  pub base_high : ℕ

pub record GdtTssEntry : Type 0 where
  pub length : ℕ
  pub base_low : ℕ
  pub base_mid : ℕ
  pub flags1 : ℕ
  pub flags2 : ℕ
  pub base_high : ℕ
  pub base_upper : ℕ
  pub reserved : ℕ

pub record GdtPtr : Type 0 where
  pub limit : ℕ
  pub base : ℕ

pub record TssEntry : Type 0 where
  pub reserved0 : ℕ
  pub rsp0 : ℕ
  pub rsp1 : ℕ
  pub rsp2 : ℕ
  pub reserved1 : ℕ
  pub ist1 : ℕ
  pub ist2 : ℕ
  pub ist3 : ℕ
  pub ist4 : ℕ
  pub ist5 : ℕ
  pub ist6 : ℕ
  pub ist7 : ℕ
  pub reserved2 : ℕ
  pub reserved3 : ℕ
  pub io_map_base : ℕ

pub gdt_encode_entry : ℕ → ℕ → ℕ → ℕ → GdtEntry
gdt_encode_entry base limit access granularity = record {
  limit_low = bit_and limit 0xFFFF;
  base_low = bit_and base 0xFFFF;
  base_middle = bit_and (base >>> 16) 0xFF;
  access = access;
  granularity = bit_or (bit_and granularity 0xF0) (bit_and (limit >>> 16) 0x0F);
  base_high = bit_and (base >>> 24) 0xFF;
}

pub gdt_encode_tss : ℕ → ℕ → GdtTssEntry
gdt_encode_tss base length = record {
  length = length;
  base_low = bit_and base 0xFFFF;
  base_mid = bit_and (base >>> 16) 0xFF;
  flags1 = 0x89;
  flags2 = 0x00;
  base_high = bit_and (base >>> 24) 0xFF;
  base_upper = bit_and (base >>> 32) 0xFFFFFFFF;
  reserved = 0;
}

abbrev pub kernel_ist_stack_size : ℕ
kernel_ist_stack_size = 0x4000

-- The sizes of the packed structs: `struct gdt_entry` and `struct tss_entry`.
abbrev pub gdt_entry_size : ℕ
gdt_entry_size = 2 + 2 + 1 + 1 + 1 + 1

abbrev pub tss_size : ℕ
tss_size = 4 + 8 * 12 + 2 + 2

-- The bytes of the packed structs.
abbrev pub entry_bytes : GdtEntry → List ℕ
entry_bytes e =
    e.limit_low % 256
    ∷ e.limit_low / 256 % 256
    ∷ e.base_low % 256
    ∷ e.base_low / 256 % 256
    ∷ e.base_middle % 256
    ∷ e.access % 256
    ∷ e.granularity % 256
    ∷ e.base_high % 256
    ∷ []

abbrev pub tss_bytes : GdtTssEntry → List ℕ
tss_bytes e =
    e.length % 256
    ∷ e.length / 256 % 256
    ∷ e.base_low % 256
    ∷ e.base_low / 256 % 256
    ∷ e.base_mid % 256
    ∷ e.flags1 % 256
    ∷ e.flags2 % 256
    ∷ e.base_high % 256
    ∷ e.base_upper % 256
    ∷ e.base_upper / 2 ^ 8 % 256
    ∷ e.base_upper / 2 ^ 16 % 256
    ∷ e.base_upper / 2 ^ 24 % 256
    ∷ e.reserved % 256
    ∷ e.reserved / 2 ^ 8 % 256
    ∷ e.reserved / 2 ^ 16 % 256
    ∷ e.reserved / 2 ^ 24 % 256
    ∷ []

-- `table` with the bytes `bs` from `at` on.
abbrev pub put_bytes : ℕ → List ℕ → (ℕ → ℕ) → ℕ → ℕ
put_bytes at [] table = table
put_bytes at (b ∷ bs) table = put_bytes (at + 1) bs λ a. if a == at then b else table a

-- A write through `&gdt_entries[i]`, as an entry or as a descriptor of the task state segment, which takes the places
-- of two entries.
abbrev pub put_entry : ℕ → GdtEntry → (ℕ → ℕ) → ℕ → ℕ
put_entry i e = put_bytes (i * gdt_entry_size) (entry_bytes e)

abbrev pub put_tss : ℕ → GdtTssEntry → (ℕ → ℕ) → ℕ → ℕ
put_tss i e = put_bytes (i * gdt_entry_size) (tss_bytes e)

-- The static objects of gdt.c, with gdt_entries byte by byte. `loaded` and `task` are the registers that lgdt and ltr
-- set.
pub record Gdt : Type 0 where
  pub entries : ℕ → ℕ
  pub ptr : GdtPtr
  pub tss : TssEntry
  pub loaded : GdtPtr
  pub code_selector : ℕ
  pub data_selector : ℕ
  pub task : ℕ

pub tss_set_kernel_stack : ℕ → Gdt → Gdt
tss_set_kernel_stack rsp0 g = record g { tss = record g.tss { rsp0 = rsp0 } }

pub gdt_flush : Gdt → Gdt
gdt_flush g = record g { loaded = g.ptr; data_selector = 0x10; code_selector = 0x08 }

pub tss_flush : Gdt → Gdt
tss_flush g = record g { task = 0x28 }

-- `entries_at`, `tss_at` and `stack_at` are the addresses of the static objects.
pub gdt_init : (entries_at tss_at stack_at : ℕ) → Gdt → Gdt
unfolding gdt_encode_entry gdt_encode_tss gdt_flush tss_flush
gdt_init entries_at tss_at stack_at g = tss_flush (
    gdt_flush (record g {
      tss = record g.tss {
        rsp0 = 0;
        ist1 = u64 (stack_at + kernel_ist_stack_size);
        io_map_base = tss_size;
      };
      ptr = record { limit = gdt_entry_size * 8 - 1; base = entries_at };
      entries = put_tss 5 (gdt_encode_tss tss_at (tss_size - 1)) (
          put_entry 4 (gdt_encode_entry 0 0xFFFFF 0xF2 0xC0) (
            put_entry 3 (gdt_encode_entry 0 0xFFFFF 0xFA 0xA0) (
              put_entry 2 (gdt_encode_entry 0 0xFFFFF 0x92 0xC0) (
                put_entry 1 (gdt_encode_entry 0 0xFFFFF 0x9A 0xA0)
                  (put_entry 0 (gdt_encode_entry 0 0 0x00 0x00) g.entries)))));
    }))
