-- ===== src/Tests/Paging.antt =====
-- Runs of the code for page tables, and its theorems there.
use ech_os.Base.{[], ℕ, List, ◌∷◌}
use ech_os.Base.{refl, arith}
use ech_os.Pmm.{Pmm}
use ech_os.Pmm.Layout.{PmmIsValid, layout, is_free}
use ech_os.Efi.Mmap.{Descriptor, EfiMemoryType, conventional_memory, memory_mapped_io}
use ech_os.Efi.Pmm.{Capacity, managed_block, build_pmm}
use ech_os.Efi.Pmm.Build.{build_pmm-IsValid}
use ech_os.Paging.{Machine, map_page, map_range}
use ech_os.Paging.Tree.{Tree}
use ech_os.Paging.Frames.{AllFrames}
use ech_os.Paging.MapPage.{Maps}
use ech_os.Paging.MapPage.Small.{map_page_lem}
use ech_os.Paging.MapRange.{MapsPages}
use ech_os.Paging.MapRange.Loop.{map_range-MapsPages}
use ech_os.Kernel.Colonel.{Framebuffer}
use ech_os.Kernel.Start.{init_paging}
use ech_os.Heap.{get_heap}
use ech_os.Heap.Backs.{Backing, get_heap-Backing}
use ech_os.Kernel.Start.Blocks.{AllLow}
use ech_os.Kernel.Start.Root.{only}
use ech_os.Kernel.Start.Identity.{IsIdentity, init_paging-IsIdentity}
use ech_os.Kernel.Start.Memory.{IsMapped, init_paging-build_pmm}

abbrev range : EfiMemoryType → ℕ → ℕ → Descriptor
range t start pages = record {
  type = t;
  physical_start = start;
  number_of_pages = pages;
  attribute = 15;
}

-- A device, and 8 MiB of conventional memory.
abbrev memory_map : List Descriptor
memory_map = range memory_mapped_io 0x9000 1 ∷ range conventional_memory 0x10_0000 2048 ∷ []

abbrev storage : Capacity
storage = record { block_capacity = 4; bitmap_words = 40 }

memory : Pmm
unfolding build_pmm
memory = build_pmm storage memory_map

memory-IsValid : PmmIsValid memory
unfolding memory
memory-IsValid = build_pmm-IsValid storage memory_map (omega arith)

memory-AllFrames : AllFrames (layout memory)
unfolding memory managed_block
memory-AllFrames = omega arith

-- A PML4 without entries, in a frame that is none of the PMM's.
abbrev machine : Machine
machine = record { physical_memory = memory; words = λ _. 0 }

empty-Tree : Tree machine 0x7000 (only 0x7000)
unfolding memory is_free managed_block
empty-Tree = record {
  root = refl;
  not_null = λ l q e. absurd (cc);
  aligned = λ t l q e. ground (arith, e);
  in_use = λ t l q x e h. ground (arith, e, h);
  child = λ t l q i e h p n. absurd (cc);
  no_large = λ t l q i e h. refl;
}

map_page_example :
    Maps machine 0x7000
      (only 0x7000)
      0
      0x4000_0123
      0x1_0000
      (map_page machine 0x7000 0x4000_0123 0x1_0000 2)
map_page_example =
    map_page_lem machine 0x7000 (only 0x7000) 0x4000_0123 0x1_0000 2 empty-Tree memory-IsValid
      memory-AllFrames refl

-- From the last small page before a large one on.
map_range_example :
    MapsPages machine 0x7000
      (only 0x7000)
      0x1f_f000
      0x1f_f000
      0x40_1000
      (map_range machine 0x7000 0x1f_f000 0x1f_f000 0x20_2000 2)
map_range_example =
    map_range-MapsPages machine (only 0x7000) 0x7000 0x1f_f000 0x1f_f000 0x20_2000 2 empty-Tree
      memory-IsValid memory-AllFrames (omega arith) (omega arith) refl

memory-AllLow : AllLow (layout memory)
unfolding memory managed_block
memory-AllLow = omega arith

-- 6000 bytes take two pages.
heap_example : Backing machine 0x7000 0x4000_0000 6000 (get_heap machine 0x7000 0x4000_0000 6000)
heap_example =
    get_heap-Backing machine (only 0x7000) 0x7000 0x4000_0000 6000 empty-Tree memory-IsValid
      memory-AllFrames memory-AllLow (omega arith) (omega arith) (omega arith)

abbrev screen : Framebuffer
screen = record {
  width = 800;
  height = 600;
  pixels_per_scanline = 800;
  margin = 10;
  buffer = 0x8000_0000;
  font = 0;
  font_size = 0;
}

start_paging_example : IsIdentity machine screen (init_paging machine screen)
unfolding memory managed_block
start_paging_example =
    init_paging-IsIdentity machine screen memory-IsValid memory-AllFrames (omega arith)
      (omega arith)

from_firmware_example :
    IsMapped memory_map
      (record { physical_memory = build_pmm storage memory_map; words = λ _. 0 })
      screen
      (init_paging
        (record { physical_memory = build_pmm storage memory_map; words = λ _. 0 })
        screen)
from_firmware_example =
    init_paging-build_pmm storage memory_map (λ _. 0) screen (omega arith) (omega arith)
      (omega arith) (omega arith)
