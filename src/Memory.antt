-- ===== src/Memory.antt =====
-- kernel/src/memory, kernel/src/memory.c.
pub mod Machine
pub mod Frame
pub mod Paging
pub mod Vm
pub mod Mmio
pub mod Heap
pub mod Bytes
