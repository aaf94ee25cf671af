-- ===== src/Memory/Mmio/Bounds.antt =====
-- Where the writes of mmio.c go.
use dos_kernel.Common.{
  ℕ, ◌+◌, ◌-◌, ◌*◌, ◌%◌, ◌^◌, ◌≤◌, ◌<◌, ◌≡◌, ◌≢◌, refl, arith, Bool, true, false, leb, ltb, ◌==◌,
  if◌then◌else◌, Bool-cases, inl, inr, Run, ok, panicked, and_then, ◌∷◌,
}
use dos_kernel.Memory.Machine.{Machine}
use dos_kernel.Memory.Mmio.{
  Mmio, in_mmio, device_store, stored, byte_address, word_address, mmio_write8, mmio_write16,
  mmio_write32, mmio_write64,
}

-- The device sees one more store.
abbrev pub Stores : ℕ → ℕ → ℕ → Mmio → Run Mmio (Unit {0}) → Type 0
Stores width a val s r = r ≡ ok tt (record s { accesses = stored width a val ∷ s.accesses })

-- The outcome of a write of `width` bytes: the store of the value, cut to its width, at its place, or a failed assertion.
abbrev pub Checked : ℕ → ℕ → ℕ → ℕ → Mmio → Run Mmio (Unit {0}) → Type 0
Checked width mr offset_bytes val s r = r ≡ (
    if leb (offset_bytes + width) (s.machine.mem (mr + 16))
    then ok tt (record s {
      accesses =
          stored width (s.machine.mem (mr + 8) + offset_bytes) (val % 2 ^ (8 * width)) ∷ s.accesses;
    })
    else panicked)

checked_address :
    (width mr offset_bytes : ℕ) (s : Machine)
    → mr ≢ 0
    → s.mem (mr + 8) + s.mem (mr + 16) < 2 ^ 64
    → offset_bytes + width < 2 ^ 64
    → word_address width mr offset_bytes s ≡ (
        if leb (offset_bytes + width) (s.mem (mr + 16))
        then ok (s.mem (mr + 8) + offset_bytes) s
        else panicked)
unfolding word_address
checked_address width mr offset_bytes s ne fits small =
    let nz : (mr == 0) ≡ false = ground arith in
    let plain : (offset_bytes + width) % 2 ^ 64 ≡ offset_bytes + width = omega arith in
    elim (Bool-cases (leb (offset_bytes + width) (s.mem (mr + 16)))) [
      | inl y ↦
          let base : (s.mem (mr + 8) + offset_bytes) % 2 ^ 64 ≡ s.mem (mr + 8) + offset_bytes =
            ground arith in
          rw (nz, plain, y, base) refl
      | inr n ↦ rw (nz, plain, n) refl
    ]

checked_byte :
    (mr offset_bytes : ℕ) (s : Machine)
    → mr ≢ 0
    → s.mem (mr + 8) + s.mem (mr + 16) < 2 ^ 64
    → byte_address mr offset_bytes s ≡ (
        if leb (offset_bytes + 1) (s.mem (mr + 16))
        then ok (s.mem (mr + 8) + offset_bytes) s
        else panicked)
unfolding byte_address
checked_byte mr offset_bytes s ne fits =
    let nz : (mr == 0) ≡ false = ground arith in
    let same : ltb offset_bytes (s.mem (mr + 16)) ≡ leb (offset_bytes + 1) (s.mem (mr + 16)) =
      ground arith in
    elim (Bool-cases (leb (offset_bytes + 1) (s.mem (mr + 16)))) [
      | inl y ↦
          let base : (s.mem (mr + 8) + offset_bytes) % 2 ^ 64 ≡ s.mem (mr + 8) + offset_bytes =
            ground arith in
          rw (nz, same, y, base) refl
      | inr n ↦ rw (nz, same, n) refl
    ]

store_if :
    (c : Bool) (width a v : ℕ) (s : Mmio)
    → and_then (in_mmio (if c then ok a s.machine else panicked) s) (device_store width v)
      ≡ (if c then ok tt (record s { accesses = stored width a v ∷ s.accesses }) else panicked)
store_if true width a v s = refl
store_if false width a v s = refl

-- A write of 1, 2, 4 or 8 bytes at an offset below 2 ^ 64 - 8, to a region that does not wrap, makes the device see one
-- store of the value, cut to its width, at that offset when all its bytes lie in the region, and stops in the
-- assertion otherwise.
pub mmio_write-Checked :
    (mr offset_bytes val : ℕ) (s : Mmio)
    → mr ≢ 0
    → s.machine.mem (mr + 8) + s.machine.mem (mr + 16) < 2 ^ 64
    → offset_bytes + 8 < 2 ^ 64
    → Checked 1 mr offset_bytes val s (mmio_write8 mr offset_bytes val s)
      × Checked 2 mr offset_bytes val s (mmio_write16 mr offset_bytes val s)
      × Checked 4 mr offset_bytes val s (mmio_write32 mr offset_bytes val s)
      × Checked 8 mr offset_bytes val s (mmio_write64 mr offset_bytes val s)
unfolding mmio_write8 mmio_write16 mmio_write32 mmio_write64
mmio_write-Checked mr o val s ne fits small =
    let m = s.machine in
    let size = m.mem (mr + 16) in
    (
      rw (checked_byte mr o m ne fits) (store_if (leb (o + 1) size) 1 _ _ s),
      rw (checked_address 2 mr o m ne fits (omega arith)) (store_if (leb (o + 2) size) 2 _ _ s),
      rw (checked_address 4 mr o m ne fits (omega arith)) (store_if (leb (o + 4) size) 4 _ _ s),
      rw (checked_address 8 mr o m ne fits (omega arith)) (store_if (leb (o + 8) size) 8 _ _ s),
    )

-- An offset that is `k` below 2 ^ 64 wraps in the assertion.
wrapped_address :
    (width k mr : ℕ) (s : Machine)
    → mr ≢ 0
    → 0 < k
    → k ≤ width
    → width ≤ s.mem (mr + 16)
    → width ≤ 8
    → k ≤ s.mem (mr + 8)
    → s.mem (mr + 8) < 2 ^ 64
    → word_address width mr (2 ^ 64 - k) s ≡ ok (s.mem (mr + 8) - k) s
unfolding word_address
wrapped_address width k mr s ne pos le room small above base =
    let nz : (mr == 0) ≡ false = ground arith in
    let sum : (2 ^ 64 - k + width) % 2 ^ 64 ≡ width - k = omega arith in
    let passes : leb (width - k) (s.mem (mr + 16)) ≡ true = ground arith in
    let place : (s.mem (mr + 8) + (2 ^ 64 - k)) % 2 ^ 64 ≡ s.mem (mr + 8) - k = omega arith in
    rw (nz, sum, passes, place) refl

-- The assertions of the wider writes do not hold back an offset that wraps: at 2 ^ 64 - 1 and 2 ^ 64 - 2, in a region of
-- 8 bytes or more above address 8, each store goes to the 1 or 2 bytes below the region.
pub mmio_write-Stores :
    (k mr val : ℕ) (s : Mmio)
    → mr ≢ 0
    → 0 < k
    → k ≤ 2
    → 8 ≤ s.machine.mem (mr + 16)
    → 8 ≤ s.machine.mem (mr + 8)
    → s.machine.mem (mr + 8) < 2 ^ 64
    → let below = s.machine.mem (mr + 8) - k in
      Stores 2 below (val % 2 ^ 16) s (mmio_write16 mr (2 ^ 64 - k) val s)
      × Stores 4 below (val % 2 ^ 32) s (mmio_write32 mr (2 ^ 64 - k) val s)
      × Stores 8 below (val % 2 ^ 64) s (mmio_write64 mr (2 ^ 64 - k) val s)
unfolding mmio_write16 mmio_write32 mmio_write64
mmio_write-Stores k mr val s ne pos le room above base =
    let at = λ (width : ℕ) (wide : k ≤ width) (small : width ≤ 8).
      wrapped_address width k mr s.machine ne pos wide (omega arith) small (omega arith) base in
    (
      rw (at 2 le (omega arith)) refl,
      rw (at 4 (omega arith) (omega arith)) refl,
      rw (at 8 (omega arith) (omega arith)) refl,
    )
