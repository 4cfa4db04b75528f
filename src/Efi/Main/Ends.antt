-- ===== src/Efi/Main/Ends.antt =====
-- How `efi_main` ends, and what the kernel gets.
use Prim.Native.String.{String}
use ech_os.Base.{
  Bool, ℕ, zero, suc, ◌+◌, ◌*◌, ◌==◌, if◌then◌else◌, Option, none, some, List, ◌∷◌, u64,
}
use ech_os.Base.{◌≡◌, ◌≢◌, refl, true, false, inl, inr, Option-cases}
use ech_os.Efi.Mmap.{Descriptor, EfiMmap, descriptors}
use ech_os.Efi.Mmap.Fetch.{answered, empty_mmap}
use ech_os.Efi.Firmware.{Status, success, invalid_parameter, MapReply}
use ech_os.Efi.Firmware.{
  History, Firmware, got_map, exited, printed, M, cleared_screen, watchdog_off,
}
use ech_os.Efi.Pmm.{build_pmm}
use ech_os.Efi.Pmm.Reserve.{PmmStorage, Reservation, reserve_pmm}
use ech_os.Efi.Malloc.{efi_malloc}
use ech_os.Efi.Fs.{FileRead, efi_fread}
use ech_os.Efi.Video.{framebuffer_init}
use ech_os.Efi.Main.{
  BootEnd, hung, halted, unfinished, faulted, started, Leaving, left, no_map, not_left, no_rounds,
}
use ech_os.Efi.Main.{
  after_exit, after_map, exit_loop, with_map, start_kernel, leave_firmware, hang, after_reserve,
  with_framebuffer, set_up, with_rsdp2, find_tables, need_file,
}
use ech_os.Efi.Main.{efi_main, get_rsdp2, colonel_size}
use ech_os.Kernel.Colonel.{Colonel, Framebuffer}

-- What the loop leaves: its last round.
data Left (capacity buffer : ℕ) : Leaving → History → Type 0 where
  by_exit :
      (mmap : EfiMmap) (reply : MapReply) (h : History)
      → reply.status ≡ success
      → Left capacity buffer
          (left (answered mmap reply))
          (exited reply.key success ∷ got_map capacity buffer reply ∷ h)
  by_refusal :
      (reply : MapReply) (status : Status) (h : History)
      → reply.status ≡ success
      → status ≢ success
      → status ≢ invalid_parameter
      → Left capacity buffer not_left (exited reply.key status ∷ got_map capacity buffer reply ∷ h)
  by_map : (h : History) → Left capacity buffer no_map h
  by_rounds : (h : History) → Left capacity buffer no_rounds h

module _ (fw : Firmware) (capacity buffer : ℕ) (mmap : EfiMmap) (reply : MapReply) (h : History)
    (go_on : M Leaving)
    (step : (h' : History) → Left capacity buffer (go_on fw h').0 (go_on fw h').1) where
  after_exit-Left :
      (status : Status)
      → reply.status ≡ success
      → let h' = exited reply.key status ∷ got_map capacity buffer reply ∷ h in
        let r = after_exit status (answered mmap reply) go_on fw h' in Left capacity buffer r.0 r.1
  unfolding after_exit
  after_exit-Left success s = by_exit mmap reply h s
  after_exit-Left invalid_parameter s = step _
  after_exit-Left status s = by_refusal reply status h s (cc) (cc)

  after_map-Left :
      (status : Status)
      → reply.status ≡ status
      → let r =
          after_map status (answered mmap reply) go_on fw (got_map capacity buffer reply ∷ h) in
        Left capacity buffer r.0 r.1
  unfolding after_map
  after_map-Left success s =
      after_exit-Left (fw.exit_boot_services (got_map capacity buffer reply ∷ h) reply.key) s
  after_map-Left status s = by_map _

exit_loop-Left :
    (rounds : ℕ) (fw : Firmware) (capacity buffer : ℕ) (mmap : EfiMmap) (h : History)
    → Left capacity buffer
        (exit_loop rounds capacity buffer mmap fw h).0
        (exit_loop rounds capacity buffer mmap fw h).1
unfolding exit_loop
exit_loop-Left zero fw capacity buffer mmap h = by_rounds h
exit_loop-Left (suc rounds) fw capacity buffer mmap h =
    let reply = fw.get_memory_map h capacity buffer in
    after_map-Left fw capacity buffer mmap reply h
      (exit_loop rounds capacity buffer (answered mmap reply))
      (exit_loop-Left rounds fw capacity buffer (answered mmap reply)) reply.status refl

-- The log that ends with a successful exit on the map that was read just before.
abbrev pub exited_on : (capacity buffer : ℕ) → MapReply → History → History
exited_on capacity buffer reply h = exited reply.key success ∷ got_map capacity buffer reply ∷ h

-- The map in `buffer`, and the kernel's argument with the PMM of its descriptors `ds`.
abbrev pub final_map : (buffer : ℕ) → EfiMmap → MapReply → EfiMmap
final_map buffer mmap reply = record (answered mmap reply) {
  start = buffer;
  end = u64 (buffer + reply.size);
}

abbrev pub handed_over : Colonel → PmmStorage → MapReply → List Descriptor → Colonel
handed_over system store reply ds = record system {
  mmap_key = reply.key;
  physical_memory = build_pmm store.capacity ds;
}

-- How the boot stage ends. In the kernel and at `halt` the last call is `ExitBootServices`, made with
-- the key of the memory map that the call before it read.
pub data Ended (fw : Firmware) : BootEnd → History → Type 0 where
  in_kernel :
      (system : Colonel) (store : PmmStorage) (capacity buffer : ℕ) (mmap : EfiMmap)
      (reply : MapReply) (h : History) (ds : List Descriptor)
      → reply.status ≡ success
      → descriptors
          (fw.descriptor_at (exited_on capacity buffer reply h))
          (final_map buffer mmap reply)
        ≡ some ds
      → Ended fw (started (handed_over system store reply ds)) (exited_on capacity buffer reply h)
  at_halt :
      (capacity buffer : ℕ) (reply : MapReply) (status : Status) (h : History)
      → reply.status ≡ success
      → status ≢ success
      → status ≢ invalid_parameter
      → Ended fw halted (exited reply.key status ∷ got_map capacity buffer reply ∷ h)
  at_hang : (h : History) → Ended fw hung (printed "Hanging now.\n" ∷ h)
  in_a_loop : (h : History) → Ended fw unfinished h
  at_null : (h : History) → Ended fw faulted h

abbrev pub Ends : Firmware → M BootEnd → Type 0
Ends fw m = (h : History) → Ended fw (m fw h).0 (m fw h).1

hang-Ends : (fw : Firmware) → Ends fw hang
unfolding hang
hang-Ends fw h = at_hang h

start_kernel-Ended :
    (fw : Firmware) (system : Colonel) (store : PmmStorage) (capacity buffer : ℕ)
    (leaving : Leaving) (h : History)
    → Left capacity buffer leaving h
    → let r = start_kernel system store buffer leaving fw h in Ended fw r.0 r.1
unfolding start_kernel with_map
start_kernel-Ended fw system store capacity buffer leaving _ (by_exit mmap reply h s) =
    elim (Option-cases (
      descriptors (fw.descriptor_at (exited_on capacity buffer reply h))
        (final_map buffer mmap reply))) [
          | inl e ↦ rw e (in_a_loop _)
          | inr (ds, e) ↦ rw e (in_kernel system store capacity buffer mmap reply h ds s e)
        ]
start_kernel-Ended fw system store capacity buffer leaving _ (by_refusal reply status h s a b) =
    at_halt capacity buffer reply status h s a b
start_kernel-Ended fw system store capacity buffer leaving h (by_map _) = hang-Ends fw h
start_kernel-Ended fw system store capacity buffer leaving h (by_rounds _) = in_a_loop h

if-Ends :
    (fw : Firmware) (b : Bool) (m n : M BootEnd)
    → Ends fw m
    → Ends fw n
    → Ends fw (if b then m else n)
if-Ends fw true m n p q = p
if-Ends fw false m n p q = q

leave_firmware-Ends :
    (rounds : ℕ) (fw : Firmware) (system : Colonel) (store : PmmStorage)
    → Ends fw (leave_firmware rounds system store)
unfolding leave_firmware
leave_firmware-Ends rounds fw system store h =
    let reply = fw.get_memory_map h 0 0 in
    let mmap = answered empty_mmap reply in
    let capacity = u64 (mmap.size + u64 (8 * mmap.descriptor_size)) in
    let (buffer, h') = efi_malloc capacity fw (got_map 0 0 reply ∷ h) in
    if-Ends fw (buffer == 0) hang _ (hang-Ends fw)
      (λ h''.
        start_kernel-Ended fw system store capacity buffer _ _
          (exit_loop-Left rounds fw capacity buffer mmap h''))
      h'

after_reserve-Ends :
    (rounds : ℕ) (fw : Firmware) (system : Colonel) (r : Reservation)
    → Ends fw (after_reserve rounds system r)
unfolding after_reserve
after_reserve-Ends rounds fw system (some (success, some store)) h =
    leave_firmware-Ends rounds fw system store h
after_reserve-Ends rounds fw system (some (success, none)) h = at_null h
after_reserve-Ends rounds fw system (some (result, store)) h = hang-Ends fw _
after_reserve-Ends rounds fw system none h = in_a_loop h

with_framebuffer-Ends :
    (rounds : ℕ) (fw : Firmware) (system : Colonel) (font_size font_file : ℕ)
    (fb : Option Framebuffer)
    → Ends fw (with_framebuffer rounds system font_size font_file fb)
unfolding with_framebuffer
with_framebuffer-Ends rounds fw system font_size font_file none h = at_null h
with_framebuffer-Ends rounds fw system font_size font_file (some fb) h =
    after_reserve-Ends rounds fw
      (record system { fb = record fb { font_size = font_size; font = font_file } })
      (reserve_pmm rounds fw h).0 (reserve_pmm rounds fw h).1

set_up-Ends :
    (rounds : ℕ) (fw : Firmware) (system : Colonel) (font_size font_file : ℕ)
    → Ends fw (set_up rounds system font_size font_file)
unfolding set_up
set_up-Ends rounds fw system font_size font_file h =
    let (fb, h') = framebuffer_init 10 system.fb fw h in
    with_framebuffer-Ends rounds fw system font_size font_file fb h'

with_rsdp2-Ends :
    (rounds : ℕ) (fw : Firmware) (system : Colonel) (font_size font_file : ℕ) (r : Option ℕ)
    → Ends fw (with_rsdp2 rounds system font_size font_file r)
unfolding with_rsdp2
with_rsdp2-Ends rounds fw system font_size font_file none h = in_a_loop h
with_rsdp2-Ends rounds fw system font_size font_file (some rsdp2) h =
    if-Ends fw (rsdp2 == 0) _ _ (λ h'. hang-Ends fw _)
      (set_up-Ends rounds fw (record system { rsdp2 = rsdp2 }) font_size font_file) h

find_tables-Ends :
    (rounds : ℕ) (fw : Firmware) (system : Colonel) (font_size font_file : ℕ)
    → Ends fw (find_tables rounds system font_size font_file)
unfolding find_tables
find_tables-Ends rounds fw system font_size font_file h =
    with_rsdp2-Ends rounds fw system font_size font_file
      (get_rsdp2 fw.compare_guid fw.acpi2_guid fw.tables) h

need_file-Ends :
    (fw : Firmware) (complaint : String) (go_on : (length file : ℕ) → M BootEnd) (file : FileRead)
    → ((length pointer : ℕ) → Ends fw (go_on length pointer))
    → Ends fw (need_file complaint go_on file)
unfolding need_file
need_file-Ends fw complaint go_on (success, some (length, pointer)) step h = step length pointer h
need_file-Ends fw complaint go_on (success, none) step h = at_null h
need_file-Ends fw complaint go_on (result, file) step h = hang-Ends fw _

-- Whatever the firmware answers, `efi_main` ends in one of five ways. If it starts the kernel, its
-- last call was an `ExitBootServices` that succeeded, with the key of the memory map that the call
-- before it read, and the kernel's PMM is the one that `build_pmm` makes of that map. If it goes to
-- `halt`, that call failed with another error than a stale key. Else it printed that it hangs, reads
-- through NULL or an unset pointer, or is in a loop whose rounds have run out.
pub efi_main_lem :
    (rounds : ℕ) (fw : Firmware) (garbage : Colonel) → Ends fw (efi_main rounds garbage)
unfolding efi_main
efi_main_lem rounds fw garbage h =
    need_file-Ends fw _ _
      (efi_fread "\\EFI\\boot\\unifont.sfn" fw (watchdog_off ∷ cleared_screen ∷ h)).0
      (λ font_size font_file h'.
        need_file-Ends fw _ _ (efi_fread "\\EFI\\boot\\libkernel.so" fw h').0
          (λ kernel_size kernel_file h''.
            let (system, h3) = efi_malloc colonel_size fw h'' in
            if-Ends fw (system == 0) _ _ (hang-Ends fw)
              (find_tables-Ends rounds fw garbage font_size font_file) h3)
          (efi_fread "\\EFI\\boot\\libkernel.so" fw h').1)
      (efi_fread "\\EFI\\boot\\unifont.sfn" fw (watchdog_off ∷ cleared_screen ∷ h)).1
