-- ===== src/Efi/Pmm.antt =====
-- efi-stage/efi_pmm.c: sizing the PMM's storage and filling the PMM from the final memory map.
pub mod Words
pub mod Reserve
pub mod BlockValid
pub mod Build
pub mod Dump
pub mod Safety
use ech_os.Base.{
  ℕ, zero, suc, ◌+◌, ◌-◌, ◌*◌, ◌/◌, ◌%◌, ◌^◌, ◌==◌, ltb, if◌then◌else◌, Bool, true, false,
}
use ech_os.Base.{not, bit_or, List, [], ◌∷◌, Option, none, some, u64, sub64, all_ones, set, get_or}
use ech_os.Base.{replicate}
use ech_os.Pmm.{Pmm}
use ech_os.Pmm.Block.{PmType, PmBlock, Bitmap, frame_map_size, usable, reclaimable, acpi_reclaim}
use ech_os.Pmm.Block.{acpi_nvs, firmware, mmio, reserved}
use ech_os.Efi.Mmap.{EfiMemoryType, Descriptor, loader_code, loader_data, boot_services_code}
use ech_os.Efi.Mmap.{boot_services_data, runtime_services_code, runtime_services_data, other_memory}
use ech_os.Efi.Mmap.{conventional_memory, acpi_reclaim_memory, acpi_memory_nvs, memory_mapped_io}
use ech_os.Efi.Mmap.{memory_mapped_io_port_space}

abbrev pub pmm_block_slack : ℕ
pmm_block_slack = 16

unfoldable pub is_ram_type : EfiMemoryType → Bool
is_ram_type loader_code = true
is_ram_type loader_data = true
is_ram_type boot_services_code = true
is_ram_type boot_services_data = true
is_ram_type conventional_memory = true
is_ram_type _ = false

-- The loop of `reserve_pmm`: blocks and RAM frames counted so far.
unfoldable pub count_descriptors : List Descriptor → (block_count ram_frames : ℕ) → ℕ × ℕ
count_descriptors [] block_count ram_frames = (block_count, ram_frames)
count_descriptors (d ∷ ds) block_count ram_frames =
    count_descriptors ds (if d.number_of_pages == 0 then block_count else u64 (block_count + 1))
      (if is_ram_type d.type then u64 (ram_frames + d.number_of_pages) else ram_frames)

-- The two sizes of `pmm_storage`.
pub record Capacity : Type 0 where
  pub block_capacity : ℕ
  pub bitmap_words : ℕ

unfoldable pub reserve_capacity : List Descriptor → Capacity
unfolding count_descriptors
reserve_capacity ds =
    let (block_count, ram_frames) = count_descriptors ds 0 0 in
    let block_capacity = u64 (block_count + pmm_block_slack) in
    record {
      block_capacity = block_capacity;
      bitmap_words = u64 (ram_frames / 64 + block_capacity);
    }

-- The `switch` of `build_pmm`.
unfoldable pub pm_type_of : EfiMemoryType → PmType
pm_type_of conventional_memory = usable
pm_type_of loader_code = reclaimable
pm_type_of loader_data = reclaimable
pm_type_of boot_services_code = reclaimable
pm_type_of boot_services_data = reclaimable
pm_type_of acpi_reclaim_memory = acpi_reclaim
pm_type_of acpi_memory_nvs = acpi_nvs
pm_type_of runtime_services_code = firmware
pm_type_of runtime_services_data = firmware
pm_type_of memory_mapped_io = mmio
pm_type_of memory_mapped_io_port_space = mmio
pm_type_of (other_memory _) = reserved

-- `type != PM_USABLE && type != PM_RECLAIMABLE` fails.
unfoldable pub wants_map : PmType → Bool
wants_map usable = true
wants_map reclaimable = true
wants_map _ = false

-- The bitmap of a PM_USABLE block of `pages` frames: all clear, but for the bits past the end of
-- the block in its last word and, at address 0, the first frame.
unfoldable pub clear_tail : (pages : ℕ) → List ℕ → List ℕ
clear_tail pages map =
    if pages % 64 == 0
    then map
    else set map (frame_map_size pages - 1) (u64 (all_ones * 2 ^ (pages % 64)))

unfoldable pub hide_zero : (address : ℕ) → List ℕ → List ℕ
hide_zero address map = if address == 0 then set map 0 (bit_or (get_or map 0 all_ones) 1) else map

unfoldable pub usable_words : (address pages : ℕ) → List ℕ
unfolding clear_tail hide_zero
usable_words address pages =
    hide_zero address (clear_tail pages (replicate (frame_map_size pages) 0))

abbrev pub new_block : Descriptor → Option Bitmap → (frames_free : ℕ) → PmBlock
new_block d map frames_free = record {
  address = d.physical_start;
  frames_total = d.number_of_pages;
  frames_free = frames_free;
  bitmap = map;
  type = pm_type_of d.type;
  attributes = d.attribute;
}

-- A block that gets its part of the bitmap storage from `next_map` on.
unfoldable pub managed_block : Descriptor → PmType → (next_map : ℕ) → PmBlock
unfolding usable_words
managed_block d reclaimable next_map =
    new_block d
      (some (record {
        start = next_map;
        words = replicate (frame_map_size d.number_of_pages) all_ones;
      }))
      0
managed_block d _ next_map =
    new_block d
      (some (record { start = next_map; words = usable_words d.physical_start d.number_of_pages }))
      (if d.physical_start == 0 then sub64 d.number_of_pages 1 else d.number_of_pages)

-- Whether the body of the loop reaches `block->map = next_map`.
unfoldable pub gets_map : Descriptor → (words_left : ℕ) → Bool
unfolding wants_map pm_type_of
gets_map d words_left =
    if wants_map (pm_type_of d.type)
    then not (ltb words_left (frame_map_size d.number_of_pages))
    else false

-- The loop of `build_pmm`: the blocks that it fills from here on.
unfoldable pub build_loop :
    (block_capacity : ℕ) → List Descriptor → (block_count next_map words_left : ℕ) → Pmm
unfolding gets_map managed_block
build_loop block_capacity [] block_count next_map words_left = []
build_loop block_capacity (d ∷ ds) block_count next_map words_left =
    let words = frame_map_size d.number_of_pages in
    let next = build_loop block_capacity ds in
    elim (d.number_of_pages == 0) [
      | true ↦ next block_count next_map words_left
      | false ↦ elim (block_count == block_capacity) [
        | true ↦ []
        | false ↦ elim (gets_map d words_left) [
          | true ↦
              managed_block d (pm_type_of d.type) next_map
              ∷ next (block_count + 1) (next_map + words) (words_left - words)
          | false ↦ new_block d none 0 ∷ next (block_count + 1) next_map words_left
        ]
      ]
    ]

unfoldable pub build_pmm : Capacity → List Descriptor → Pmm
unfolding build_loop
build_pmm storage ds = build_loop storage.block_capacity ds 0 0 storage.bitmap_words
