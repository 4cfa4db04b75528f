-- ===== src/Lib.antt =====
-- Verification of echOS: a kernel and its EFI boot stage.
--
-- The boot stage (efi-stage/) reads the firmware's memory map, lays out the physical memory
-- manager, leaves the firmware and starts the kernel. The kernel (kernel/) allocates frames from
-- that manager, for its descriptor tables, for page tables and for heaps, which it maps. What the
-- models share stands in Base, bits of machine words in Bits.
--
-- Parts:
-- - Pmm: kernel/memory/physical.c and physical.h. Pmm/Block.antt has the functions on one
--   `pm_block`, Pmm.antt those on the whole `pmm`, under the names of the source. A block owns the
--   words that its `map` points at, together with the place where they begin in the shared storage;
--   NULL is `none`. A read out of range is a fault. The children of Pmm hold the abstract view
--   (which frames are used) and the proofs.
-- - Efi: efi-stage/. Efi/Firmware.antt is the firmware as a parameter: functions of the log of all
--   calls so far, so that code is a function from a log to a result and a longer log. Efi/Mmap.antt
--   has the memory map's descriptors and the walk over them, its child Fetch `getEFIMemoryMap`,
--   its child PageCount `getPageCountByType`,
--   Efi/Malloc.antt, Fs.antt and Video.antt the files of these names, Efi/Pmm.antt `build_pmm` and
--   the sizes that `reserve_pmm` computes, its child Reserve `reserve_pmm`, Efi/Main.antt main.c.
--   gnu-efi's `CompareGuid` is a parameter, of which nothing is said but its number.
--   Efi/Pools.antt reads off the log which buffers and files are held, and says what UEFI documents
--   of the answers.
-- - Paging: kernel/memory/paging.c and paging.h, over the PMM and the words of memory by address.
--   NULL is 0; -1 and 0 as results are `failed` and `done`. `map_loop` has a bound on its rounds:
--   each maps a page at least, so the bytes of the range by the size of a page, and two, are
--   enough. Paging/Translate.antt is the processor's walk of such tables, against which the code
--   is proved; Paging/Tree.antt is the invariant: each table stands at one place of the tree. The
--   steps follow the code: a fresh table (Fresh), the next table (NextTable), the directory
--   (Directory), the entry of a page (Leaf), a page (MapPage) and a range (MapRange).
-- - Heap: kernel/memory/heap.c, over Pmm and Paging. Heap/Frames.antt has the frames of a run,
--   Heap/Release.antt the loop that gives them back, Heap/Backs.antt `get_heap` as a whole.
-- - Acpi: kernel/acpi/madt.c and xsdt.c on the bytes of memory. A table of n bytes has at most n
--   records, so n + 1 rounds are enough.
-- - Kernel: Kernel/Tables.antt has kernel/gdt.c and idt.c without the assembly, Kernel/Start.antt
--   `init_paging` and Kernel/Boot.antt `kernel_start` of kernel/kernel.c.
--   Kernel/Start/Identity.antt says what the kernel's page tables map, Kernel/Start/Memory.antt
--   joins that to the memory map of the boot stage, and Kernel/Boot/Handover.antt `kernel_start`
--   to `efi_main`.
-- - Strings: lib/string/ and lib/stack.c, with a child Itoa, and Strings/Printf.antt
--   lib/stdio/vsprintf.c, whose child Rendering tells without buffers what it prints. A pointer is
--   the rest of its buffer. The stack behind the array of `reverse_string` is a parameter. A digit
--   takes a byte, a round of `vsprintf` a character of the format: their lengths and one are enough
--   rounds.
-- - Console: kernel/drivers/ssfn_fb.c. The font library's `ssfn_putc` is a parameter, and so is what
--   it draws on; it may rely on a font, known by its first bytes, and a screen. Paging/Debug.antt has kernel/memory/paging_debug.c as the calls of `ssfn_printf`
--   that it makes.
--
-- Numbers are natural numbers; every operation on a fixed width is followed by its remainder. Loops
-- are structural: over the blocks, over the rounds that are left (entries of a bitmap, bits of a
-- word, frames of a block), or over the visited descriptors.
--
-- The loops of `getEFIMemoryMap` and `efi_main` go on as long as the firmware makes them; their
-- models take a bound on the rounds, and say so in the result where it is reached. The loop over a
-- memory map of n bytes ends within n + 1 rounds, or not at all: where a descriptor's size is 0, or
-- the offset wraps. `walk` is `none` where its n + 1 rounds run out.
--
-- Not modelled: `get_graphics_info`, which nothing calls; what `kernel_start` prints; the arguments
-- of `Print`; the assembly of the table registers; and the font library in include/ssfn.h, which is
-- another project's.
mod Base
pub mod Bits
pub mod Acpi
pub mod Paging
pub mod Heap
pub mod Pmm
pub mod Efi
pub mod Kernel
pub mod Strings
pub mod Console
mod Tests
