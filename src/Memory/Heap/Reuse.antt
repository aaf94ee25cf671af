-- ===== src/Memory/Heap/Reuse.antt =====
-- A block that was freed last is the first to be handed out again.
use dos_kernel.Common.{
  ℕ, suc, ◌+◌, ◌^◌, ◌≤◌, ◌<◌, ◌≡◌, ◌≢◌, refl, arith, true, false, ltb, leb, ◌==◌, ==_refl, ok, ◌>>◌,
  u64, sub64,
}
use dos_kernel.Memory.Machine.{Machine, write}
use dos_kernel.Memory.Heap.{kmalloc, kfree, search, take_block, split, align16}

-- After kfree of a block whose size is that of the request, rounded up to 16, or too small to be split, kmalloc
-- returns this block, and the free list is the one before kfree.
pub kfree-kmalloc :
    (fuel blk size : ℕ) (s : Machine)
    → blk ≢ 0
    → blk + 24 < 2 ^ 64
    → size ≢ 0
    → align16 size ≤ s.mem (blk + 8)
    → s.mem (blk + 8) < align16 size + 40
    → align16 size + 40 < 2 ^ 64
    → (t : Machine) × ((kfree (blk + 24) >> kmalloc (suc fuel) size) s ≡ ok (blk + 24) t)
      × (t.free_list ≡ s.free_list)
      × (t.mem (blk + 8) ≡ s.mem (blk + 8))
unfolding kfree kmalloc search take_block split
kfree-kmalloc fuel blk size s ne fits some fit tight small =
    let back : sub64 (blk + 24) 24 ≡ blk = omega arith in
    let p : (blk + 24 == 0) ≡ false = ground arith in
    let b : (blk == 0) ≡ false = ground arith in
    let z : (size == 0) ≡ false = ground arith in
    let no : (blk + 8 == blk + 16) ≡ false = ground arith in
    let enough : leb (align16 size) (s.mem (blk + 8)) ≡ true = ground arith in
    let whole : ltb (s.mem (blk + 8)) (u64 (align16 size + 24 + 16)) ≡ true = ground arith in
    (
      record s { mem = write (write s.mem (blk + 16) s.free_list) (blk + 16) 0 },
      rw (p, back, z, b, no, enough, no, whole, ==_refl, p) refl,
      refl,
      rw no refl,
    )
