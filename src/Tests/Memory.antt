-- ===== src/Tests/Memory.antt =====
-- Runs of the physical memory manager on a small memory map, and its theorems there.
use ech_os.Base.{ℕ, ◌+◌, ◌*◌, ◌≤◌, List, [], ◌∷◌, some, ok}
use ech_os.Base.{◌≡◌, refl, arith}
use ech_os.Pmm.{Pmm, frame_allocate, frame_free, frames_allocate, get_pmm_size}
use ech_os.Pmm.Block.{PmBlock, Bitmap, frame_size, usable, frame_allocate_from_block}
use ech_os.Pmm.Block.{frame_free_from_block, frames_allocate_from_block}
use ech_os.Pmm.Valid.{IsValid}
use ech_os.Pmm.Allocate.{BlockAllocation, frame_allocate_from_block_lem}
use ech_os.Pmm.Free.{BlockFreed, frame_free_from_block_lem}
use ech_os.Pmm.BlockRun.{BlockRun, frames_allocate_from_block_lem}
use ech_os.Pmm.Layout.{PmmIsValid, is_free}
use ech_os.Pmm.FrameAllocate.{Allocation, frame_allocate_lem}
use ech_os.Pmm.FrameFree.{Release, frame_free_lem}
use ech_os.Pmm.FramesAllocate.{RunAllocation, frames_allocate_lem}
use ech_os.Pmm.RoundTrip.{frame_free-frame_allocate}
use ech_os.Efi.Mmap.{Descriptor, EfiMemoryType, conventional_memory, loader_data, memory_mapped_io}
use ech_os.Bits.{bits}
use ech_os.Paging.{Machine}
use ech_os.Kernel.Colonel.{Framebuffer}
use ech_os.Kernel.Boot.{kernel_start}
use ech_os.Kernel.Boot.Laws.{Halted, kernel_start_lem}
use ech_os.Pmm.Usage.{used}
use ech_os.Pmm.Block.{scan_entries, read_word, find_bit, claim, write_word}
use ech_os.Efi.Pmm.BlockValid.{usable-IsValid}
use ech_os.Efi.Pmm.{is_ram_type, managed_block, Capacity, build_pmm, reserve_capacity, usable_words}
use ech_os.Efi.Pmm.Build.{IsMemoryMap, build_pmm-IsValid}
use ech_os.Efi.Pmm.Safety.{Conventional, build_pmm-Conventional}

abbrev range : EfiMemoryType → ℕ → ℕ → Descriptor
range t start pages = record {
  type = t;
  physical_start = start;
  number_of_pages = pages;
  attribute = 15;
}

-- Conventional memory at 0, the loader's data, a device, and more conventional memory.
abbrev memory_map : List Descriptor
memory_map =
    range conventional_memory 0 3
    ∷ range loader_data 0x3000 2
    ∷ range memory_mapped_io 0x9000 1
    ∷ range conventional_memory 0x10000 70
    ∷ []

abbrev storage : Capacity
storage = record { block_capacity = 8; bitmap_words = 6 }

memory_map-IsMemoryMap : IsMemoryMap memory_map
memory_map-IsMemoryMap = omega arith

memory : Pmm
unfolding build_pmm
memory = build_pmm storage memory_map

memory-IsValid : PmmIsValid memory
unfolding memory
memory-IsValid = build_pmm-IsValid storage memory_map memory_map-IsMemoryMap

abbrev low_block : ℕ → ℕ → PmBlock
low_block word frames_free = record {
  address = 0;
  frames_total = 3;
  frames_free = frames_free;
  bitmap = some (record { start = 0; words = word ∷ [] });
  type = usable;
  attributes = 15;
}

-- Frame 0 is hidden, frames 1 and 2 are free, and so is the rest.
first_block : (rest : Pmm) × (memory ≡ low_block 0xffff_ffff_ffff_fff9 2 ∷ rest)
unfolding memory
first_block = (_, refl)

reserve_example : reserve_capacity memory_map ≡ record { block_capacity = 20; bitmap_words = 21 }
unfolding reserve_capacity is_ram_type
reserve_example = refl

size_example : get_pmm_size memory ≡ 232
unfolding get_pmm_size memory
size_example = refl

after_one : Pmm
after_one = first_block.0

allocated : frame_allocate memory ≡ ok (0x1000, low_block 0xffff_ffff_ffff_fffb 1 ∷ after_one)
unfolding frame_allocate memory first_block after_one frame_allocate_from_block scan_entries
    read_word find_bit claim write_word
allocated = refl

frame_allocate_example : Allocation memory (frame_allocate memory)
frame_allocate_example = frame_allocate_lem memory memory-IsValid

frame_free_example : Release memory 0x11abc (frame_free memory 0x11abc)
frame_free_example = frame_free_lem memory 0x11abc memory-IsValid

frames_allocate_example : RunAllocation memory 65 (frames_allocate memory 65)
frames_allocate_example = frames_allocate_lem memory 65 (omega arith) memory-IsValid

round_trip_example : frame_free (low_block 0xffff_ffff_ffff_fffb 1 ∷ after_one) 0x1fff ≡ ok memory
round_trip_example =
    frame_free-frame_allocate memory 0x1000 (low_block 0xffff_ffff_ffff_fffb 1 ∷ after_one) 0x1fff
      memory-IsValid allocated (omega arith) refl

free_example : (frame_size ≤ 0x11abc) × Conventional memory_map 0x11abc
unfolding used bits
free_example =
    build_pmm-Conventional storage memory_map 0x11abc memory_map-IsMemoryMap (omega arith)
      (unfold build_pmm is_free in refl)

abbrev low_range : Descriptor
low_range = range conventional_memory 0 3

block : PmBlock
unfolding managed_block
block = managed_block low_range usable 0

abbrev block_map : Bitmap
block_map = record { start = 0; words = usable_words 0 3 }

block-IsValid : IsValid block
unfolding block
block-IsValid = usable-IsValid low_range 0 (omega arith) (omega arith)

block-managed : block.bitmap ≡ some block_map
unfolding block
block-managed = refl

block_allocate_example : BlockAllocation block (frame_allocate_from_block block)
block_allocate_example = frame_allocate_from_block_lem block block_map block-IsValid block-managed

block_free_example :
    BlockFreed block 2 (frame_free_from_block block (block.address + 2 * frame_size + 5))
block_free_example =
    frame_free_from_block_lem block block_map block-IsValid block-managed 2 5
      (unfold block in omega arith) (omega arith)

contiguous_example : BlockRun block 2 (frames_allocate_from_block block 2)
contiguous_example =
    frames_allocate_from_block_lem block block_map block-IsValid block-managed 2 (omega arith)

abbrev machine : Machine
machine = record { physical_memory = memory; words = λ _. 0 }

abbrev screen : Framebuffer
screen = record {
  width = 800;
  height = 600;
  pixels_per_scanline = 800;
  margin = 10;
  buffer = 0x8000_0000;
  font = 0;
  font_size = 0;
}

kernel_example : Halted memory (kernel_start machine screen)
unfolding memory build_pmm managed_block
kernel_example =
    kernel_start_lem machine screen memory-IsValid
      (omega arith, (omega arith, (omega arith, (omega arith, tt)))) (omega arith)
