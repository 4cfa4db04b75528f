-- ===== src/Efi/Firmware.antt =====
-- The firmware that efi-stage/ runs on: its calls and what they answer. The code is in none of the
-- files of the repository, so a firmware is a parameter: functions of everything that happened
-- before, which the log of the calls holds.
use Prim.Native.String.{String}
use ech_os.Base.{ℕ, List, ◌∷◌, Bool, true, false}
use ech_os.Efi.Mmap.{Descriptor}

-- `EFI_STATUS`, as far as the code tells its values apart.
pub data Status : Type 0 where
  success invalid_parameter unsupported buffer_too_small out_of_resources : Status
  not_found end_of_file not_started : Status
  warning : ℕ → Status
  other_error : ℕ → Status

-- `EFI_ERROR`: neither success nor a warning.
unfoldable pub is_error : Status → Bool
is_error success = false
is_error (warning n) = false
is_error _ = true

-- What `GetMemoryMap` writes through its pointers.
pub record MapReply : Type 0 where
  pub status : Status
  pub size : ℕ
  pub key : ℕ
  pub descriptor_size : ℕ

-- The calls with their arguments and answers. Of a `Print` it keeps the format.
pub data Event : Type 0 where
  got_map : (size buffer : ℕ) → MapReply → Event
  exited : (key : ℕ) → Status → Event
  allocated : (size : ℕ) → Status → (pointer : ℕ) → Event
  freed : (pointer : ℕ) → Status → Event
  located : Status → (handles : List ℕ) → (pointer : ℕ) → Event
  got_protocol : (handle : ℕ) → Status → (fs : ℕ) → Event
  opened_volume : (fs : ℕ) → Status → (root : ℕ) → Event
  opened : (root : ℕ) → (name : String) → Status → (file : ℕ) → Event
  closed : (handle : ℕ) → Event
  got_info : (file : ℕ) → Status → (file_size : ℕ) → Event
  was_read : (file size buffer : ℕ) → Status → (read : ℕ) → Event
  printed : String → Event
  cleared_screen watchdog_off : Event

-- The latest event stands first.
abbrev pub History : Type 0
History = List Event

-- The mode of the Graphics Output Protocol.
pub record Mode : Type 0 where
  pub horizontal_resolution : ℕ
  pub vertical_resolution : ℕ
  pub pixels_per_scan_line : ℕ
  pub frame_buffer_base : ℕ

pub record Firmware : Type 0 where
  pub get_memory_map : History → (size buffer : ℕ) → MapReply
  pub exit_boot_services : History → (key : ℕ) → Status
  pub allocate_pool : History → (size : ℕ) → Status × ℕ
  pub free_pool : History → (pointer : ℕ) → Status
  pub locate_handle_buffer : History → Status × List ℕ × ℕ
  pub handle_protocol : History → (handle : ℕ) → Status × ℕ
  pub open_volume : History → (fs : ℕ) → Status × ℕ
  pub open_file : History → (root : ℕ) → String → Status × ℕ
  pub file_info : History → (file : ℕ) → Status × ℕ
  pub read_file : History → (file size buffer : ℕ) → Status × ℕ
  -- The descriptor that lies at an address, once the firmware wrote it there.
  pub descriptor_at : History → ℕ → Descriptor
  -- `LocateProtocol` for the Graphics Output Protocol, where it has one.
  pub graphics : Status × Mode
  -- `ConfigurationTable`: the GUID of each table as a number, and the table.
  pub tables : List (ℕ × ℕ)
  -- Of gnu-efi: `CompareGuid` and `ACPI_20_TABLE_GUID`.
  pub compare_guid : (a b : ℕ) → ℕ
  pub acpi2_guid : ℕ

-- Code that calls the firmware.
abbrev pub M {ℓ} : Type ℓ → Type ℓ
M A = Firmware → History → A × History

infixl 5 ◌>>=◌ ◌>>◌
abbrev pub ◌>>=◌ {ℓ κ} : {A : Type ℓ} {B : Type κ} → M A → (A → M B) → M B
◌>>=◌ m f fw h = f (m fw h).0 fw (m fw h).1

abbrev pub ◌>>◌ {ℓ κ} : {A : Type ℓ} {B : Type κ} → M A → M B → M B
m >> k = m >>= λ _. k

abbrev pub ret {ℓ} : {A : Type ℓ} → A → M A
ret a fw h = (a, h)

abbrev pub print : String → M (Unit {0})
print text fw h = (tt, printed text ∷ h)

abbrev pub clear_screen : M (Unit {0})
clear_screen fw h = (tt, cleared_screen ∷ h)

abbrev pub watchdog_timer_off : M (Unit {0})
watchdog_timer_off fw h = (tt, watchdog_off ∷ h)

abbrev pub get_memory_map : (size buffer : ℕ) → M MapReply
get_memory_map size buffer fw h =
    let reply = fw.get_memory_map h size buffer in (reply, got_map size buffer reply ∷ h)

abbrev pub exit_boot_services : (key : ℕ) → M Status
exit_boot_services key fw h =
    let status = fw.exit_boot_services h key in (status, exited key status ∷ h)

abbrev pub allocate_pool : (size : ℕ) → M (Status × ℕ)
allocate_pool size fw h =
    let reply = fw.allocate_pool h size in (reply, allocated size reply.0 reply.1 ∷ h)

abbrev pub free_pool : (pointer : ℕ) → M Status
free_pool pointer fw h = let status = fw.free_pool h pointer in (status, freed pointer status ∷ h)

abbrev pub locate_handle_buffer : M (Status × List ℕ × ℕ)
locate_handle_buffer fw h =
    let reply = fw.locate_handle_buffer h in (reply, located reply.0 reply.1 reply.2 ∷ h)

abbrev pub handle_protocol : (handle : ℕ) → M (Status × ℕ)
handle_protocol handle fw h =
    let reply = fw.handle_protocol h handle in (reply, got_protocol handle reply.0 reply.1 ∷ h)

abbrev pub open_volume : (fs : ℕ) → M (Status × ℕ)
open_volume fs fw h =
    let reply = fw.open_volume h fs in (reply, opened_volume fs reply.0 reply.1 ∷ h)

abbrev pub open_file : (root : ℕ) → String → M (Status × ℕ)
open_file root name fw h =
    let reply = fw.open_file h root name in (reply, opened root name reply.0 reply.1 ∷ h)

abbrev pub close : (handle : ℕ) → M (Unit {0})
close handle fw h = (tt, closed handle ∷ h)

abbrev pub file_info : (file : ℕ) → M (Status × ℕ)
file_info file fw h = let reply = fw.file_info h file in (reply, got_info file reply.0 reply.1 ∷ h)

abbrev pub read_file : (file size buffer : ℕ) → M (Status × ℕ)
read_file file size buffer fw h =
    let reply = fw.read_file h file size buffer in
    (reply, was_read file size buffer reply.0 reply.1 ∷ h)

abbrev pub tables : M (List (ℕ × ℕ))
tables fw h = (fw.tables, h)

abbrev pub compare_guid : M ((a b : ℕ) → ℕ)
compare_guid fw h = (fw.compare_guid, h)

abbrev pub acpi2_guid : M ℕ
acpi2_guid fw h = (fw.acpi2_guid, h)

abbrev pub graphics : M (Status × Mode)
graphics fw h = (fw.graphics, h)

-- How memory reads now.
abbrev pub descriptor_at : M (ℕ → Descriptor)
descriptor_at fw h = (fw.descriptor_at h, h)
