-- ===== src/X86/Gdt/Laws.antt =====
-- What a processor reads from the descriptors that gdt.c writes.
use dos_kernel.Common.{ℕ, ◌+◌, ◌*◌, ◌/◌, ◌%◌, ◌^◌, ◌≤◌, ◌<◌, ◌≡◌, refl, arith, length, bit_and}
use dos_kernel.Common.Bits.{bit_and_split, bit_or_fields, bit_and_mask, bit_and-zero}
use dos_kernel.X86.Gdt.{GdtEntry, GdtTssEntry, gdt_encode_entry, gdt_encode_tss, Gdt, gdt_init}

-- The processor's reading of a segment descriptor (AMD64 manual, volume 2, 4.7).
abbrev pub base_of : GdtEntry → ℕ
base_of e = e.base_low + e.base_middle * 2 ^ 16 + e.base_high * 2 ^ 24

abbrev pub limit_of : GdtEntry → ℕ
limit_of e = e.limit_low + e.granularity % 16 * 2 ^ 16

abbrev pub flags_of : GdtEntry → ℕ
flags_of e = e.granularity / 16

abbrev pub tss_base_of : GdtTssEntry → ℕ
tss_base_of e = e.base_low + e.base_mid * 2 ^ 16 + e.base_high * 2 ^ 24 + e.base_upper * 2 ^ 32

high_nibble : (g : ℕ) → g < 256 → bit_and g 0xF0 ≡ g / 16 * 16
high_nibble g h =
    ground (
      arith,
      bit_and_split 4 (g / 16) (g % 16) 15 0,
      bit_and_mask 4 (g / 16),
      bit_and-zero (g % 16),
    )

-- A descriptor decodes to the base, limit, access byte and flags that it was made from.
pub gdt_encode_entry-decodes :
    (base limit access granularity : ℕ)
    → base < 2 ^ 32
    → limit < 2 ^ 20
    → granularity < 256
    → (base_of (gdt_encode_entry base limit access granularity) ≡ base)
      × (limit_of (gdt_encode_entry base limit access granularity) ≡ limit)
      × ((gdt_encode_entry base limit access granularity).access ≡ access)
      × (flags_of (gdt_encode_entry base limit access granularity) ≡ granularity / 16)
unfolding gdt_encode_entry
gdt_encode_entry-decodes base limit access granularity hb hl hg = ground (
  arith,
  bit_and_mask 16 limit,
  bit_and_mask 16 base,
  bit_and_mask 8 (base / 2 ^ 16),
  bit_and_mask 8 (base / 2 ^ 24),
  bit_and_mask 4 (limit / 2 ^ 16),
  high_nibble granularity,
  bit_or_fields 4 (granularity / 16) (limit / 2 ^ 16 % 2 ^ 4),
)

-- The descriptor of the task state segment decodes to its 64-bit base and its length, as a present
-- and available TSS.
pub gdt_encode_tss-decodes :
    (base length : ℕ)
    → base < 2 ^ 64
    → (tss_base_of (gdt_encode_tss base length) ≡ base)
      × ((gdt_encode_tss base length).length ≡ length)
      × ((gdt_encode_tss base length).flags1 ≡ 0x89)
unfolding gdt_encode_tss
gdt_encode_tss-decodes base length h = ground (
  arith,
  bit_and_mask 16 base,
  bit_and_mask 8 (base / 2 ^ 16),
  bit_and_mask 8 (base / 2 ^ 24),
  bit_and_mask 32 (base / 2 ^ 32),
)

-- What the processor reads in the bytes of a table at a selector (AMD64 manual, volume 2, 4.8).
abbrev at_selector : ℕ → ℕ
at_selector selector = selector / 8 * 8

abbrev base_at : (ℕ → ℕ) → ℕ → ℕ
base_at t d = t (d + 2) + t (d + 3) * 2 ^ 8 + t (d + 4) * 2 ^ 16 + t (d + 7) * 2 ^ 24

abbrev long_base_at : (ℕ → ℕ) → ℕ → ℕ
long_base_at t d =
    base_at t d
    + (t (d + 8) + t (d + 9) * 2 ^ 8 + t (d + 10) * 2 ^ 16 + t (d + 11) * 2 ^ 24) * 2 ^ 32

abbrev limit_at : (ℕ → ℕ) → ℕ → ℕ
limit_at t d = t d + t (d + 1) * 2 ^ 8 + t (d + 6) % 16 * 2 ^ 16

-- A present segment of code or data over the whole 4 GiB: its ring, and whether it can be executed and is 64-bit code.
pub record IsSegment (t : ℕ → ℕ) (d ring executable long : ℕ) : Type 0 where
  pub present : t (d + 5) / 2 ^ 7 ≡ 1
  pub ring_is : t (d + 5) / 2 ^ 5 % 4 ≡ ring
  pub segment : t (d + 5) / 2 ^ 4 % 2 ≡ 1
  pub kind : t (d + 5) / 2 ^ 3 % 2 ≡ executable
  pub readable_or_writable : t (d + 5) / 2 % 2 ≡ 1
  pub mode : t (d + 6) / 2 ^ 5 % 2 ≡ long
  pub pages : t (d + 6) / 2 ^ 7 ≡ 1
  pub base : base_at t d ≡ 0
  pub limit : limit_at t d ≡ 0xFFFFF

-- A present, available 64-bit task state segment.
pub record IsTask (t : ℕ → ℕ) (d at length : ℕ) : Type 0 where
  pub present : t (d + 5) / 2 ^ 7 ≡ 1
  pub ring_is : t (d + 5) / 2 ^ 5 % 4 ≡ 0
  pub system : t (d + 5) / 2 ^ 4 % 2 ≡ 0
  pub kind : t (d + 5) % 16 ≡ 9
  pub base : long_base_at t d ≡ at
  pub limit : limit_at t d ≡ length

-- What the registers of the processor name in the table that is loaded.
pub record Selects (entries_at tss_at stack_at : ℕ) (r : Gdt) : Type 0 where
  pub null : (r.entries 5 ≡ 0) × (base_at r.entries 0 ≡ 0) × (limit_at r.entries 0 ≡ 0)
  pub kernel_code : IsSegment r.entries (at_selector r.code_selector) 0 1 1
  pub kernel_data : IsSegment r.entries (at_selector r.data_selector) 0 0 0
  pub user_code : IsSegment r.entries 0x18 3 1 1
  pub user_data : IsSegment r.entries 0x20 3 0 0
  pub task : IsTask r.entries (at_selector r.task) tss_at 103
  pub table : r.loaded.base ≡ entries_at
  pub inside : at_selector r.task + 16 ≤ r.loaded.limit + 1
  pub stack : r.tss.ist1 ≡ stack_at + 0x4000
  pub no_ports : 103 < r.tss.io_map_base

two_bytes : (x : ℕ) → x < 2 ^ 16 → x % 256 + x / 256 % 256 * 2 ^ 8 ≡ x
two_bytes x h = omega arith

four_bytes :
    (x : ℕ)
    → x < 2 ^ 32
    → x % 256 + x / 2 ^ 8 % 256 * 2 ^ 8 + x / 2 ^ 16 % 256 * 2 ^ 16 + x / 2 ^ 24 % 256 * 2 ^ 24 ≡ x
four_bytes x h = omega arith

-- The bytes of a base of 64 bits in the fields of the descriptor.
base_bytes :
    (x low mid high upper : ℕ)
    → low ≡ x % 2 ^ 16
    → mid ≡ x / 2 ^ 16 % 2 ^ 8
    → high ≡ x / 2 ^ 24 % 2 ^ 8
    → upper ≡ x / 2 ^ 32 % 2 ^ 32
    → x < 2 ^ 64
    → low % 256
        + low / 256 % 256 * 2 ^ 8
        + mid % 256 * 2 ^ 16
        + high % 256 * 2 ^ 24
        + (upper % 256
            + upper / 2 ^ 8 % 256 * 2 ^ 8
            + upper / 2 ^ 16 % 256 * 2 ^ 16
            + upper / 2 ^ 24 % 256 * 2 ^ 24)
          * 2 ^ 32
      ≡ x
base_bytes x low mid high upper el em eh eu h =
    let l = two_bytes low (omega arith) in
    let u = four_bytes upper (omega arith) in
    let m : mid % 256 ≡ mid = omega arith in let g : high % 256 ≡ high = omega arith in omega arith

tss_base :
    (x : ℕ)
    → x < 2 ^ 64
    → let e = gdt_encode_tss x 103 in
      e.base_low % 256
        + e.base_low / 256 % 256 * 2 ^ 8
        + e.base_mid % 256 * 2 ^ 16
        + e.base_high % 256 * 2 ^ 24
        + (e.base_upper % 256
            + e.base_upper / 2 ^ 8 % 256 * 2 ^ 8
            + e.base_upper / 2 ^ 16 % 256 * 2 ^ 16
            + e.base_upper / 2 ^ 24 % 256 * 2 ^ 24)
          * 2 ^ 32
      ≡ x
unfolding gdt_encode_tss
tss_base x h =
    base_bytes x _ _ _ _ (bit_and_mask 16 x) (bit_and_mask 8 (x / 2 ^ 16))
      (bit_and_mask 8 (x / 2 ^ 24)) (bit_and_mask 32 (x / 2 ^ 32)) h

-- After gdt_init, read by the processor from the bytes of the loaded table: the selector 0 names nothing; the code selector
-- names a present 64-bit code segment of ring 0 and the data selector a present writable data segment of ring 0, 0x18
-- and 0x20 the same for ring 3, all over the whole 4 GiB; the task register names a present 64-bit task state segment at
-- `tss_at`, of 104 bytes, with the end of the interrupt stack and no I/O map; and the descriptor of that segment lies
-- within the limit of the table.
pub gdt_init-Selects :
    (entries_at tss_at stack_at : ℕ) (g : Gdt)
    → tss_at < 2 ^ 64
    → stack_at + 0x4000 < 2 ^ 64
    → Selects entries_at tss_at stack_at (gdt_init entries_at tss_at stack_at g)
unfolding gdt_init gdt_encode_entry gdt_encode_tss
gdt_init-Selects entries_at tss_at stack_at g h fits = record {
  null = (refl, refl, refl);
  kernel_code = record {
    present = refl;
    ring_is = refl;
    segment = refl;
    kind = refl;
    readable_or_writable = refl;
    mode = refl;
    pages = refl;
    base = refl;
    limit = refl;
  };
  kernel_data = record {
    present = refl;
    ring_is = refl;
    segment = refl;
    kind = refl;
    readable_or_writable = refl;
    mode = refl;
    pages = refl;
    base = refl;
    limit = refl;
  };
  user_code = record {
    present = refl;
    ring_is = refl;
    segment = refl;
    kind = refl;
    readable_or_writable = refl;
    mode = refl;
    pages = refl;
    base = refl;
    limit = refl;
  };
  user_data = record {
    present = refl;
    ring_is = refl;
    segment = refl;
    kind = refl;
    readable_or_writable = refl;
    mode = refl;
    pages = refl;
    base = refl;
    limit = refl;
  };
  task = record {
    present = refl;
    ring_is = refl;
    system = refl;
    kind = refl;
    base = tss_base tss_at h;
    limit = refl;
  };
  table = refl;
  inside = omega arith;
  stack = omega arith;
  no_ports = omega arith;
}
