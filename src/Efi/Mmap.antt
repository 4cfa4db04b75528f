-- ===== src/Efi/Mmap.antt =====
-- efi-stage/efi_mmap.h and the walk over the firmware's memory map of efi_mmap.c and efi_pmm.c.
-- The descriptor's layout and the memory types are the firmware's: `read` says what descriptor
-- lies at an address, and the named types are those that the source tells apart.
pub mod Fetch
pub mod Visited
pub mod PageCount
use ech_os.Base.{ℕ, zero, suc, ◌+◌, ◌-◌, ltb, if◌then◌else◌}
use ech_os.Base.{List, [], ◌∷◌, u64, Option, none, some}

-- The cases of the `switch` statements on a descriptor's type, which C keeps distinct.
pub data EfiMemoryType : Type 0 where
  loader_code loader_data boot_services_code boot_services_data : EfiMemoryType
  runtime_services_code runtime_services_data conventional_memory : EfiMemoryType
  acpi_reclaim_memory acpi_memory_nvs : EfiMemoryType
  memory_mapped_io memory_mapped_io_port_space : EfiMemoryType
  other_memory : ℕ → EfiMemoryType

pub record Descriptor : Type 0 where
  pub type : EfiMemoryType
  pub physical_start : ℕ
  pub number_of_pages : ℕ
  pub attribute : ℕ

pub record EfiMmap : Type 0 where
  pub start : ℕ
  pub end : ℕ
  pub size : ℕ
  pub key : ℕ
  pub descriptor_size : ℕ

abbrev pub visit : Descriptor → Option (List Descriptor) → Option (List Descriptor)
visit d none = none
visit d (some ds) = some (d ∷ ds)

-- The descriptors that `for(offset = start; offset < end; offset += descriptorSize)` visits.
-- `fuel` bounds the rounds; `none` where they run out.
unfoldable pub walk : (read : ℕ → Descriptor) (fuel offset end size : ℕ) → Option (List Descriptor)
walk read zero offset end size = none
walk read (suc fuel) offset end size =
    let rest = walk read fuel (u64 (offset + size)) end size in
    if ltb offset end then visit (read offset) rest else some []

-- A map of at most `end - start` bytes has at most that many descriptors, and the last round sees
-- that there are no more. `none` where the size of a descriptor is 0, so that the loop never ends.
unfoldable pub descriptors : (read : ℕ → Descriptor) → EfiMmap → Option (List Descriptor)
unfolding walk
descriptors read mmap =
    walk read (mmap.end - mmap.start + 1) mmap.start mmap.end mmap.descriptor_size
