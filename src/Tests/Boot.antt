-- ===== src/Tests/Boot.antt =====
-- Runs of the boot stage on a small firmware, and the theorems there.
use ech_os.Base.{ℕ, ◌+◌, ◌*◌, ◌/◌, ◌%◌, ◌^◌, ◌<◌, ◌==◌, ltb, if◌then◌else◌, List, [], ◌∷◌, length}
use ech_os.Base.{true, not, none, some, get_or, ◌≡◌, ◌⊎◌, inl, inr, refl, arith}
use ech_os.Kernel.Boot.{kernel_start}
use ech_os.Kernel.Boot.Laws.{Halted}
use ech_os.Kernel.Boot.Handover.{kernel_start-efi_main}
use ech_os.Efi.Mmap.{EfiMmap, conventional_memory, loader_data, descriptors}
use ech_os.Efi.Mmap.Fetch.{get_efi_memory_map, empty_mmap}
use ech_os.Efi.Mmap.Fetch.Laws.{Fetched, get_efi_memory_map_lem}
use ech_os.Efi.Mmap.Fetch.Ends.{Answers, Returned, asked, get_efi_memory_map_ends}
use ech_os.Efi.Mmap.Visited.{entries}
use ech_os.Efi.Mmap.PageCount.{
  get_page_count_by_type, get_page_count_by_type_lem, page_sum, of_type, lines,
}
use ech_os.Efi.Firmware.{Firmware, success, buffer_too_small, invalid_parameter, is_error}
use ech_os.Efi.Firmware.{MapReply}
use ech_os.Efi.Pools.{IsFirmware, live_pools, live_files}
use ech_os.Efi.Fs.{efi_fread}
use ech_os.Efi.Malloc.{efi_malloc, efi_free}
use ech_os.Efi.Video.{framebuffer_init}
use ech_os.Efi.Fs.Laws.{Read, efi_fread_lem}
use ech_os.Efi.Pmm.{Capacity}
use ech_os.Efi.Pmm.Reserve.{reserve_pmm, lay_out, storage_bytes, pmm_size, pointer_size}
use ech_os.Efi.Pmm.Reserve.Laws.{Reserved, reserve_pmm_lem}
use ech_os.Efi.Pmm.Reserve.Layout.{lay_out_lem}
use ech_os.Efi.Main.{BootEnd, started, efi_main, exit_loop, get_rsdp2}
use ech_os.Efi.Main.Ends.{Ended, efi_main_lem}
use ech_os.Efi.Main.Fresh.{efi_main-IsFresh}
use ech_os.Efi.Main.Loop.{LetsGo, HasLeft, exit_loop_ends}
use ech_os.Efi.Main.Tables.{get_rsdp2_lem, first_table}
use ech_os.Efi.Fresh.{IsFresh}
use ech_os.Kernel.Colonel.{Colonel}
use ech_os.Pmm.{pm_block_size}

-- The map takes two descriptors of 48 bytes.
abbrev map_reply : (size buffer : ℕ) → MapReply
map_reply size buffer =
    if ltb size 96
    then record { status = buffer_too_small; size = 96; key = 0; descriptor_size = 48 }
    else (if buffer == 0
        then record { status = invalid_parameter; size = 96; key = 0; descriptor_size = 48 }
        else record { status = success; size = 96; key = 7; descriptor_size = 48 })

abbrev vendor_tables : List (ℕ × ℕ)
vendor_tables = (1, 0x6000) ∷ (2, 0x7000) ∷ []

-- A `CompareGuid` that gives 1 for equal GUIDs.
abbrev compare : (a b : ℕ) → ℕ
compare a b = if a == b then 1 else 0

abbrev boot_firmware : Firmware
boot_firmware = record {
  get_memory_map = λ h. map_reply;
  exit_boot_services = λ h key. success;
  allocate_pool = λ h size. (success, 0x10_0000 + 0x1_0000 * length h);
  free_pool = λ h pointer. success;
  locate_handle_buffer = λ h. (success, 1 ∷ 2 ∷ [], 0x5000);
  handle_protocol = λ h handle. (success, 10 + handle);
  open_volume = λ h fs. (success, 20 + fs);
  open_file = λ h root name. if root == 31 then (buffer_too_small, 0) else (success, 40);
  file_info = λ h file. (success, 100);
  read_file = λ h file size buffer. (success, 100);
  descriptor_at = λ h a. record {
    type = if (a / 48) % 2 == 0 then conventional_memory else loader_data;
    physical_start = a * 0x1_0000;
    number_of_pages = 16;
    attribute = 15;
  };
  graphics = (
    success,
    record {
      horizontal_resolution = 800;
      vertical_resolution = 600;
      pixels_per_scan_line = 800;
      frame_buffer_base = 0x8000_0000;
    },
  );
  tables = vendor_tables;
  compare_guid = compare;
  acpi2_guid = 2;
}

boot_firmware-IsFirmware : IsFirmware boot_firmware
boot_firmware-IsFirmware = record {
  allocates = λ h size. inr (refl, omega arith);
  fills_a_buffer = λ h size. ground arith;
  opens = λ h root name e. unfold is_error in ground arith;
}

boot_firmware-Answers : Answers boot_firmware (λ h. 96) 48
boot_firmware-Answers = record {
  some_bytes = λ h. omega arith;
  small = λ h. omega arith;
  grants = λ h size buffer enough real. ground arith;
  denies = λ h size buffer few. (ground arith, ground arith, ground arith);
  steady = λ h size buffer asked pointer reply. omega arith;
}

boot_firmware-LetsGo : LetsGo boot_firmware 96 1 (λ h. 0)
boot_firmware-LetsGo = record { reads = λ h. refl; accepts = λ h. inl refl }

abbrev garbage : Colonel
garbage = record {
  physical_memory = [];
  pml4 = 1;
  heap = 2;
  heap_size = 3;
  gdt = 4;
  rsdp2 = 5;
  cpus = record { count = 6; apic_data = 7 };
  fb = record {
    width = 8;
    height = 9;
    pixels_per_scanline = 10;
    margin = 11;
    buffer = 12;
    font = 13;
    font_size = 14;
  };
  mmap_key = 15;
}

-- The fields of the kernel's argument, where the kernel is started.
abbrev handed : BootEnd → List ℕ
handed (started system) =
    system.mmap_key ∷ system.rsdp2 ∷ system.fb.font_size ∷ system.fb.width ∷ []
handed _ = []

boots : handed (efi_main 3 garbage boot_firmware []).0 ≡ 7 ∷ 0x7000 ∷ 100 ∷ 800 ∷ []
unfolding efi_main efi_fread efi_malloc get_rsdp2 framebuffer_init reserve_pmm get_efi_memory_map
    efi_free
boots = refl

fetch_example : let r = get_efi_memory_map 3 boot_firmware [] in Fetched (live_pools []) r.0 r.1
fetch_example = get_efi_memory_map_lem 3 boot_firmware [] boot_firmware-IsFirmware

two_rounds_example :
    let (size, h) = asked boot_firmware boot_firmware-IsFirmware boot_firmware-Answers 0 [] in
    let result = (boot_firmware.allocate_pool h size).0 in
    ((result ≡ success) ⊎ (is_error result ≡ true))
    × Returned (get_efi_memory_map 2 boot_firmware []).0 result
two_rounds_example =
    get_efi_memory_map_ends boot_firmware boot_firmware-IsFirmware boot_firmware-Answers 0 []

fread_example :
    let r = efi_fread "\\EFI\\boot\\unifont.sfn" boot_firmware [] in
    Read (live_pools []) (live_files []) r.0 r.1
fread_example = efi_fread_lem "\\EFI\\boot\\unifont.sfn" boot_firmware [] boot_firmware-IsFirmware

reserve_example : let r = reserve_pmm 3 boot_firmware [] in Reserved (live_pools []) r.0 r.1
reserve_example = reserve_pmm_lem 3 boot_firmware [] boot_firmware-IsFirmware

abbrev small_storage : Capacity
small_storage = record { block_capacity = 4; bitmap_words = 6 }

layout_example :
    let s = lay_out 0x10_0000 small_storage in
    let words = s.capacity.bitmap_words in
    let count = s.capacity.block_capacity in
    (s.blocks ≡ s.physical_memory + pmm_size)
    × (length s.block_table ≡ count)
    × ((i : ℕ)
        → i < count
        → get_or s.block_table i 0 ≡ s.blocks + count * pointer_size + i * pm_block_size)
    × (s.bitmap ≡ s.blocks + count * pointer_size + count * pm_block_size)
    × (s.bitmap + words * 8 ≡ s.physical_memory + storage_bytes small_storage)
layout_example = lay_out_lem 0x10_0000 small_storage (unfold lay_out in omega arith)

boot_example : let r = efi_main 3 garbage boot_firmware [] in Ended boot_firmware r.0 r.1
boot_example = efi_main_lem 3 boot_firmware garbage []

key_example : IsFresh (efi_main 3 garbage boot_firmware []).1
key_example = efi_main-IsFresh 3 garbage boot_firmware

leave_example : HasLeft (exit_loop 1 96 1 empty_mmap boot_firmware []).0
leave_example =
    exit_loop_ends 1 96 1 empty_mmap boot_firmware (λ h. 0) [] boot_firmware-LetsGo (omega arith)

tables_example :
    get_rsdp2 compare 2 vendor_tables
    ≡ some (first_table (λ guid. not (compare 2 guid == 0)) vendor_tables)
tables_example = get_rsdp2_lem compare 2 vendor_tables (omega arith)

-- Where equal GUIDs give 0, as gnu-efi documents it, the table that is not of ACPI 2 is returned.
skipped : get_rsdp2 (λ a b. if a == b then 0 else 1) 2 vendor_tables ≡ some 0x6000
unfolding get_rsdp2
skipped = refl

abbrev a_map : EfiMmap
a_map = record { start = 96; end = 240; size = 144; key = 7; descriptor_size = 48 }

page_count_example :
    let ds = of_type conventional_memory (entries (boot_firmware.descriptor_at []) 3 96 48) in
    get_page_count_by_type a_map conventional_memory boot_firmware []
    ≡ (some (page_sum ds % 2 ^ 32), lines (length ds) [])
page_count_example =
    get_page_count_by_type_lem a_map conventional_memory 3 boot_firmware [] (omega arith)
      (omega arith) (omega arith)

-- Descriptors of size 0 hold the loop.
endless :
    (get_page_count_by_type
      (record a_map { descriptor_size = 0 })
      conventional_memory
      boot_firmware
      []).0
    ≡ none
unfolding get_page_count_by_type descriptors
endless = refl

abbrev argument_of : BootEnd → Colonel
argument_of (started system) = system
argument_of _ = garbage

abbrev argument : Colonel
argument = argument_of (efi_main 3 garbage boot_firmware []).0

handover_example : Halted argument.physical_memory (
    kernel_start
      (record { physical_memory = argument.physical_memory; words = λ a. 0 })
      argument.fb)
unfolding efi_main efi_fread efi_malloc get_rsdp2 framebuffer_init reserve_pmm get_efi_memory_map
    efi_free descriptors
handover_example =
    kernel_start-efi_main 3 boot_firmware garbage argument (λ a. 0) refl
      (omega arith, (inl (omega arith), tt), (omega arith, tt, tt)) (omega arith, (omega arith, tt))
      (omega arith)
