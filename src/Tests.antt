-- ===== src/Tests.antt =====
-- The theorems on concrete inputs.
mod Boot
mod Hardware
mod Heap
mod Memory
mod Space
mod Fat16
mod Drivers
mod Output
mod Scan
mod Commands
mod Fresh
