-- ===== src/Efi/Main.antt =====
-- efi-stage/main.c: from the firmware's call to the kernel's start.
pub mod Tables
pub mod Ends
pub mod Fresh
pub mod Loop
use Prim.Native.String.{String}
use ech_os.Base.{
  ℕ, zero, suc, ◌+◌, ◌*◌, ◌==◌, ltb, if◌then◌else◌, Option, none, some, List, [], ◌∷◌, Bool,
}
use ech_os.Base.{u16, u64, length, get_elem?}
use ech_os.Efi.Mmap.{Descriptor, EfiMmap, descriptors}
use ech_os.Efi.Mmap.Fetch.{answered, empty_mmap}
use ech_os.Efi.Firmware.{Status, success, invalid_parameter, unsupported, buffer_too_small, M, ret}
use ech_os.Efi.Firmware.{◌>>=◌, ◌>>◌, print, clear_screen, watchdog_timer_off, get_memory_map}
use ech_os.Efi.Firmware.{exit_boot_services, tables, compare_guid, acpi2_guid, descriptor_at}
use ech_os.Efi.Malloc.{efi_malloc}
use ech_os.Efi.Fs.{FileRead, efi_fread}
use ech_os.Efi.Video.{framebuffer_init}
use ech_os.Efi.Pmm.{build_pmm}
use ech_os.Efi.Pmm.Reserve.{PmmStorage, Reservation, reserve_pmm}
use ech_os.Kernel.Colonel.{Framebuffer, Colonel}

-- The line that `display_error` prints.
unfoldable pub display_error : Status → M (Unit {0})
display_error success = print "EFI_SUCCESS\n"
display_error invalid_parameter = print "EFI_INVALID_PARAMETER\n"
display_error unsupported = print "EFI_UNSUPPORTED\n"
display_error buffer_too_small = print "EFI_BUFFER_TOO_SMALL\n"
display_error _ = print "Unknown result = 0x%x\n"

-- The loop of `get_rsdp2`, whose counter has 16 bits; `none` where its rounds run out.
-- `compare_guid` is `CompareGuid` of gnu-efi, and a table its GUID and its pointer.
unfoldable pub rsdp2_loop :
    (compare : (a b : ℕ) → ℕ) → (rounds counter acpi2 : ℕ) → (table : List (ℕ × ℕ)) → Option ℕ
rsdp2_loop compare zero counter acpi2 table = none
rsdp2_loop compare (suc rounds) counter acpi2 table =
    let rest = rsdp2_loop compare rounds (u16 (counter + 1)) acpi2 table in
    elim (get_elem? table counter) [
      | none ↦ some 0
      | some (vendor_guid, vendor_table) ↦
          if compare acpi2 vendor_guid == 0 then rest else some vendor_table
    ]

-- A round for each table, and one that sees that there are no more.
unfoldable pub get_rsdp2 :
    (compare : (a b : ℕ) → ℕ) → (acpi2 : ℕ) → (table : List (ℕ × ℕ)) → Option ℕ
unfolding rsdp2_loop
get_rsdp2 compare acpi2 table = rsdp2_loop compare (length table + 1) 0 acpi2 table

-- How `efi_main` ends, which never returns: at `hang`, at `halt`, in a loop whose rounds run out, in
-- a read through NULL, or in the kernel.
pub data BootEnd : Type 0 where
  hung halted unfinished faulted : BootEnd
  started : Colonel → BootEnd

unfoldable pub hang : M BootEnd
hang = do print "Hanging now.\n"; ret hung

-- The loop that leaves the firmware.
pub data Leaving : Type 0 where
  left : EfiMmap → Leaving
  no_map not_left no_rounds : Leaving

-- What a round does with the answer of `ExitBootServices`.
unfoldable pub after_exit : Status → EfiMmap → (go_on : M Leaving) → M Leaving
after_exit success mmap go_on = ret (left mmap)
after_exit invalid_parameter mmap go_on = go_on
after_exit result mmap go_on = ret not_left

-- What a round does with the answer of `GetMemoryMap`.
unfoldable pub after_map : Status → EfiMmap → (go_on : M Leaving) → M Leaving
unfolding after_exit
after_map success mmap go_on = do result ← exit_boot_services mmap.key; after_exit result mmap go_on
after_map result mmap go_on = do print "GetMemoryMap failed: 0x%lx\n"; ret no_map

unfoldable pub exit_loop : (rounds : ℕ) → (map_capacity map_buffer : ℕ) → EfiMmap → M Leaving
unfolding after_map
exit_loop zero map_capacity map_buffer mmap = ret no_rounds
exit_loop (suc rounds) map_capacity map_buffer mmap = do
  reply ← get_memory_map map_capacity map_buffer
  let mmap' = answered mmap reply
  after_map reply.status mmap' (exit_loop rounds map_capacity map_buffer mmap')

-- The call of the kernel behind `build_pmm`, whose loop does not end without descriptors.
unfoldable pub with_map : Colonel → PmmStorage → EfiMmap → Option (List Descriptor) → BootEnd
unfolding build_pmm
with_map system store mmap none = unfinished
with_map system store mmap (some ds) =
    started (record system { mmap_key = mmap.key; physical_memory = build_pmm store.capacity ds })

-- From `ExitBootServices` to the kernel: the memory map is the last one that was read.
unfoldable pub start_kernel : Colonel → PmmStorage → (map_buffer : ℕ) → Leaving → M BootEnd
unfolding hang with_map descriptors
start_kernel system store map_buffer (left mmap) = do
  read ← descriptor_at
  let mmap' = record mmap { start = map_buffer; end = u64 (map_buffer + mmap.size) }
  ret (with_map system store mmap (descriptors read mmap'))
start_kernel system store map_buffer no_map = hang
start_kernel system store map_buffer not_left = ret halted
start_kernel system store map_buffer no_rounds = ret unfinished

-- From the first `GetMemoryMap` on, with the PMM's storage reserved.
unfoldable pub leave_firmware : (rounds : ℕ) → Colonel → PmmStorage → M BootEnd
unfolding hang exit_loop start_kernel
leave_firmware rounds system store = do
  reply ← get_memory_map 0 0
  let mmap = answered empty_mmap reply
  let map_capacity = u64 (mmap.size + u64 (8 * mmap.descriptor_size))
  map_buffer ← efi_malloc map_capacity
  if map_buffer == 0 then hang else (do
    leaving ← exit_loop rounds map_capacity map_buffer mmap
    start_kernel system store map_buffer leaving)

unfoldable pub after_reserve : (rounds : ℕ) → Colonel → Reservation → M BootEnd
unfolding hang leave_firmware
after_reserve rounds system (some (success, some store)) = leave_firmware rounds system store
after_reserve rounds system (some (success, none)) = ret faulted
after_reserve rounds system (some (result, store)) = do
  print "Could not reserve physical memory manager.\n"
  hang
after_reserve rounds system none = ret unfinished

-- Behind `framebuffer_init`.
unfoldable pub with_framebuffer :
    (rounds : ℕ) → Colonel → (font_size font_file : ℕ) → Option Framebuffer → M BootEnd
unfolding after_reserve
with_framebuffer rounds system font_size font_file none = ret faulted
with_framebuffer rounds system font_size font_file (some fb) = do
  answer ← reserve_pmm rounds
  after_reserve rounds
      (record system { fb = record fb { font_size = font_size; font = font_file } }) answer

unfoldable pub set_up : (rounds : ℕ) → Colonel → (font_size font_file : ℕ) → M BootEnd
unfolding with_framebuffer
set_up rounds system font_size font_file = do
  fb ← framebuffer_init 10 system.fb
  with_framebuffer rounds system font_size font_file fb

-- Behind `get_rsdp2`.
unfoldable pub with_rsdp2 :
    (rounds : ℕ) → Colonel → (font_size font_file : ℕ) → Option ℕ → M BootEnd
unfolding hang set_up
with_rsdp2 rounds system font_size font_file none = ret unfinished
with_rsdp2 rounds system font_size font_file (some rsdp2) =
    if rsdp2 == 0
    then (do print "Could not get pointer to RSDP2.\n"; hang)
    else set_up rounds (record system { rsdp2 = rsdp2 }) font_size font_file

unfoldable pub find_tables : (rounds : ℕ) → Colonel → (font_size font_file : ℕ) → M BootEnd
unfolding with_rsdp2
find_tables rounds system font_size font_file = do
  table ← tables
  compare ← compare_guid
  acpi2 ← acpi2_guid
  with_rsdp2 rounds system font_size font_file (get_rsdp2 compare acpi2 table)

-- `if(efi_fread(...) != EFI_SUCCESS) { Print(...); goto hang; }`.
unfoldable pub need_file :
    (complaint : String) → (go_on : (length file : ℕ) → M BootEnd) → FileRead → M BootEnd
unfolding hang
need_file complaint go_on (success, some (length, file)) = go_on length file
need_file complaint go_on (success, none) = ret faulted
need_file complaint go_on (result, file) = do print complaint; hang

-- `sizeof(colonel_t)` on the target.
abbrev pub colonel_size : ℕ
colonel_size = 128

-- `garbage` is what the pool buffer of `system` holds before it is written.
unfoldable pub efi_main : (rounds : ℕ) → (garbage : Colonel) → M BootEnd
unfolding hang need_file find_tables
efi_main rounds garbage = do
  clear_screen
  watchdog_timer_off
  font ← efi_fread "\\EFI\\boot\\unifont.sfn"
  need_file "Couldn't open \\EFI\\boot\\unifont.sfn\n"
      (λ font_size font_file. do
        kernel ← efi_fread "\\EFI\\boot\\libkernel.so"
        need_file "Couldn't open \\EFI\\boot\\libkernel.so\n"
            (λ kernel_size kernel_file. do
              system ← efi_malloc colonel_size
              if system == 0 then hang else find_tables rounds garbage font_size font_file)
            kernel)
      font
