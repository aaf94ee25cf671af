-- ===== src/Lib.antt =====
-- The kernel of UEF-DOS, a small x86-64 kernel in C under kernel/. At boot main.c sets up the
-- descriptor tables (x86_64), the window onto physical memory, the frames and the page tables
-- (memory), and the storage (pci, storage/ahci), and mounts a FAT16 volume (fs/fat16).
--
-- Files, by the part they model:
--   Common     machine words, Boolean tests, bit lemmas, and the outcome of a routine: it returns,
--              a failed ASSERT of kernel/include/assert.h stops it, or the model's fuel is spent.
--   Ports      kernel/include/commands.h. A port instruction is recorded in a history; what a read
--              answers is a parameter, the device.
--   Pci        kernel/src/pci/pci.c, and the PCI readers of kernel/src/storage/ahci.c.
--   X86        kernel/src/x86_64: Gdt is gdt.c, Pic is pic.c, Idt the table of idt.c and its
--              child Handlers the handlers, Apic is apic.c.
--   Memory     kernel/src/memory: Machine holds the state that these files share (hhdm.c and
--              tlb.c included), Frame is frame.c, Paging is paging.c, Vm is vm.c, Heap is heap.c (with
--              first fit on a list of blocks in Blocks and Fit) and Mmio is mmio.c. All structures there consist of 64-bit fields at steps of 8 bytes, so
--              memory is a function from the address of a field to its value. Bytes is
--              kernel/src/memory.c.
--   Storage    kernel/src/storage/ahci.c: Ahci holds the state and the accesses, Ports a port's start,
--              stop and probe, Command a command in memory, Transfer the transfers, and Scan the scan
--              of the bus. Fis and Prdt read the structures of a command back. A register's answer is
--              a parameter, a function of the whole state.
--   Fs.Fat16   kernel/src/fs/fat16.c: FatSize is fat16_compute_fat_size, Volume the boot record
--              and fat16_validate, Boot the boot sector, Format fat16_format, Mount the list of
--              volumes and fat16_init, Read fat16_read. The routines of other parts that fat16.c calls are the
--              record Env of Env: their answers depend on all that was asked before.
--   Fs.Vfs     kernel/src/fs/vfs.c, whose routines only return a constant.
--   Logging    kernel/src/logging: Printk is printk.c and Serial is serial.c; Panic is
--              kernel/src/panic.c.
--   Boot       kernel/src/main.c: the state of all parts, and kmain as one run over it. Prepared is what
--              the memory part is like behind paging_init, when the boot loader's tables are of pages of
--              4 KiB alone.
--   Tests      the theorems at concrete inputs.
--
-- The names are those of the C functions, without the prefix of a file (pci_, fat_list_) where the
-- module says it. Numbers are natural numbers, with the wrap-around of the C types written out.
--
-- Fuel: the loops over pages get the number of pages and one round more; frame_init gets for an entry
-- of the memory map its length in pages and two rounds more. region_remove and what calls it take
-- their fuel as an argument, and one more than the number of regions is enough. The search for the
-- table size takes fuel too: four rounds are enough unless it never ends. The waits of start_cmd and
-- stop_cmd for the controller have no bound in C and take fuel, which ahci_init passes on; the waits of
-- a transfer are bounded in C. kmalloc takes fuel for its search and for its calls of itself: three more
-- than the number of free blocks is enough for sizes up to 4064 bytes. kmain passes its fuel on to the
-- waits for the interval timer and for the disks.
--
-- The descriptor table of gdt.c is its 64 bytes, so that the place of each descriptor counts. The
-- accesses to device memory through mmio.c are recorded, as those to ports are. The structures that
-- ahci.c keeps at physical 0x400000 are a memory of their own, apart from frames and page tables: a
-- clash of the two is outside the model.
--
-- Not modelled: flanterm and format of kernel/src/logging are copies of other projects, and parameters
-- here: a terminal takes one byte after the other, and format calls its writer on the bytes of a text.
-- fat16_debug_print of fat16.c only prints and is left out. The memory map, the framebuffer and the
-- window are the boot loader's answers and arguments here. The texts of log messages inside the
-- other parts are left out, and a failed ASSERT there is the outcome `panicked`, as is exception_handler
-- of idt.c, whose message is left out; what panic prints is Logging.Panic.
pub mod Common
pub mod Ports
pub mod Pci
pub mod Memory
pub mod X86
pub mod Storage
pub mod Fs
pub mod Logging
pub mod Boot
pub mod Tests
