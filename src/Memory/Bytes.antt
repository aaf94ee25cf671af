-- ===== src/Memory/Bytes.antt =====
-- kernel/src/memory.c: the loops over bytes. Memory is a function from addresses to bytes.
pub mod Copy
use dos_kernel.Common.{ℕ, zero, suc, ◌+◌, u8, u64, ltb, ◌==◌, if◌then◌else◌}

abbrev pub Bytes : Type 0
Bytes = ℕ → ℕ

abbrev pub poke : Bytes → ℕ → ℕ → Bytes
poke m a v b = if b == a then v else m b

-- `for (i = from; rounds more; i++)`, upwards.
unfoldable pub set_loop : ℕ → ℕ → ℕ → ℕ → Bytes → Bytes
set_loop zero dest ch i m = m
set_loop (suc rounds) dest ch i m =
    set_loop rounds dest ch (i + 1) (poke m (u64 (dest + i)) (u8 ch))

unfoldable pub memset : ℕ → ℕ → ℕ → Bytes → Bytes
memset dest ch count m = set_loop count dest ch 0 m

unfoldable pub up_loop : ℕ → ℕ → ℕ → ℕ → Bytes → Bytes
up_loop zero dest src i m = m
up_loop (suc rounds) dest src i m =
    up_loop rounds dest src (i + 1) (poke m (u64 (dest + i)) (m (u64 (src + i))))

unfoldable pub memcpy : ℕ → ℕ → ℕ → Bytes → Bytes
memcpy dest src count m = up_loop count dest src 0 m

-- `for (i = count; i > 0; i--)`
unfoldable pub down_loop : ℕ → ℕ → ℕ → Bytes → Bytes
down_loop zero dest src m = m
down_loop (suc i) dest src m = down_loop i dest src (poke m (u64 (dest + i)) (m (u64 (src + i))))

unfoldable pub memmove : ℕ → ℕ → ℕ → Bytes → Bytes
memmove dest src count m =
    if src == dest
    then m
    else if ltb dest src
    then up_loop count dest src 0 m
    else down_loop count dest src m

-- The results of memcmp.
pub data Order : Type 0 where
  minus_one : Order
  equal : Order
  one : Order

unfoldable pub compare_loop : ℕ → ℕ → ℕ → ℕ → Bytes → Order
compare_loop zero lhs rhs i m = equal
compare_loop (suc rounds) lhs rhs i m =
    let rest = compare_loop rounds lhs rhs (i + 1) m in
    if ltb (m (u64 (rhs + i))) (m (u64 (lhs + i)))
    then minus_one
    else if ltb (m (u64 (lhs + i))) (m (u64 (rhs + i)))
    then one
    else rest

unfoldable pub memcmp : ℕ → ℕ → ℕ → Bytes → Order
memcmp lhs rhs count m = compare_loop count lhs rhs 0 m
