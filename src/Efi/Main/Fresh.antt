-- ===== src/Efi/Main/Fresh.antt =====
-- Every call of `ExitBootServices` has the key of the map that the call before it read.
use Prim.Native.String.{String}
use ech_os.Base.{ℕ, zero, suc, ◌+◌, ◌*◌, ◌==◌, Option, none, some, [], ◌∷◌, u64}
use ech_os.Base.{◌≡◌, refl}
use ech_os.Efi.Mmap.{EfiMmap}
use ech_os.Efi.Mmap.Fetch.{answered, empty_mmap}
use ech_os.Efi.Firmware.{Status, success, invalid_parameter, MapReply}
use ech_os.Efi.Firmware.{History, Firmware, got_map, M, cleared_screen, watchdog_off}
use ech_os.Efi.Fresh.{
  IsFresh, Keeps, if-Keeps, efi_malloc-Keeps, efi_fread-Keeps, reserve_pmm-Keeps,
  framebuffer_init-Keeps,
}
use ech_os.Efi.Malloc.{efi_malloc}
use ech_os.Efi.Fs.{FileRead, efi_fread}
use ech_os.Efi.Video.{framebuffer_init}
use ech_os.Efi.Pmm.Reserve.{PmmStorage, Reservation, reserve_pmm}
use ech_os.Efi.Main.{BootEnd, Leaving, left, no_map, not_left, no_rounds}
use ech_os.Efi.Main.{
  after_exit, after_map, exit_loop, start_kernel, leave_firmware, hang, after_reserve, set_up,
  with_framebuffer, with_rsdp2,
}
use ech_os.Efi.Main.{find_tables, need_file, efi_main, get_rsdp2, colonel_size}
use ech_os.Kernel.Colonel.{Colonel, Framebuffer}

module _ (mmap : EfiMmap) (go_on : M Leaving) (step : Keeps go_on) where
  after_exit-Keeps : (status : Status) → Keeps (after_exit status mmap go_on)
  unfolding after_exit
  after_exit-Keeps success fw h i = i
  after_exit-Keeps invalid_parameter fw h i = step fw h i
  after_exit-Keeps status fw h i = i

  after_map-IsFresh :
      (status : Status) (size buffer : ℕ) (reply : MapReply) (fw : Firmware) (h : History)
      → reply.status ≡ status
      → reply.key ≡ mmap.key
      → IsFresh h
      → IsFresh (after_map status mmap go_on fw (got_map size buffer reply ∷ h)).1
  unfolding after_map
  after_map-IsFresh success size buffer reply fw h s k i =
      after_exit-Keeps (fw.exit_boot_services (got_map size buffer reply ∷ h) mmap.key) fw _
        ((s, k), i)
  after_map-IsFresh status size buffer reply fw h s k i = i

exit_loop-Keeps :
    (rounds capacity buffer : ℕ) (mmap : EfiMmap) → Keeps (exit_loop rounds capacity buffer mmap)
unfolding exit_loop
exit_loop-Keeps zero capacity buffer mmap fw h i = i
exit_loop-Keeps (suc rounds) capacity buffer mmap fw h i =
    let reply = fw.get_memory_map h capacity buffer in
    after_map-IsFresh (answered mmap reply) (exit_loop rounds capacity buffer (answered mmap reply))
      (exit_loop-Keeps rounds capacity buffer (answered mmap reply)) reply.status capacity buffer
      reply fw h refl refl i

start_kernel-Keeps :
    (system : Colonel) (store : PmmStorage) (buffer : ℕ) (leaving : Leaving)
    → Keeps (start_kernel system store buffer leaving)
unfolding start_kernel hang
start_kernel-Keeps system store buffer (left mmap) fw h i = i
start_kernel-Keeps system store buffer no_map fw h i = i
start_kernel-Keeps system store buffer not_left fw h i = i
start_kernel-Keeps system store buffer no_rounds fw h i = i

hang-Keeps : Keeps hang
unfolding hang
hang-Keeps fw h i = i

leave_firmware-Keeps :
    (rounds : ℕ) (system : Colonel) (store : PmmStorage)
    → Keeps (leave_firmware rounds system store)
unfolding leave_firmware
leave_firmware-Keeps rounds system store fw h i =
    let reply = fw.get_memory_map h 0 0 in
    let mmap = answered empty_mmap reply in
    let capacity = u64 (mmap.size + u64 (8 * mmap.descriptor_size)) in
    let (buffer, h') = efi_malloc capacity fw (got_map 0 0 reply ∷ h) in
    if-Keeps (buffer == 0) hang _ hang-Keeps
      (λ fw h i.
        start_kernel-Keeps system store buffer (exit_loop rounds capacity buffer mmap fw h).0 fw _
          (exit_loop-Keeps rounds capacity buffer mmap fw h i))
      fw h' (efi_malloc-Keeps capacity fw (got_map 0 0 reply ∷ h) i)

after_reserve-Keeps :
    (rounds : ℕ) (system : Colonel) (r : Reservation) → Keeps (after_reserve rounds system r)
unfolding after_reserve hang
after_reserve-Keeps rounds system (some (success, some store)) fw h i =
    leave_firmware-Keeps rounds system store fw h i
after_reserve-Keeps rounds system (some (success, none)) fw h i = i
after_reserve-Keeps rounds system (some (result, store)) fw h i = i
after_reserve-Keeps rounds system none fw h i = i

with_framebuffer-Keeps :
    (rounds : ℕ) (system : Colonel) (font_size font_file : ℕ) (fb : Option Framebuffer)
    → Keeps (with_framebuffer rounds system font_size font_file fb)
unfolding with_framebuffer
with_framebuffer-Keeps rounds system font_size font_file none fw h i = i
with_framebuffer-Keeps rounds system font_size font_file (some fb) fw h i =
    after_reserve-Keeps rounds
      (record system { fb = record fb { font_size = font_size; font = font_file } })
      (reserve_pmm rounds fw h).0 fw _ (reserve_pmm-Keeps rounds fw h i)

set_up-Keeps :
    (rounds : ℕ) (system : Colonel) (font_size font_file : ℕ)
    → Keeps (set_up rounds system font_size font_file)
unfolding set_up
set_up-Keeps rounds system font_size font_file fw h i =
    let (fb, h') = framebuffer_init 10 system.fb fw h in
    with_framebuffer-Keeps rounds system font_size font_file fb fw h'
      (framebuffer_init-Keeps 10 system.fb fw h i)

with_rsdp2-Keeps :
    (rounds : ℕ) (system : Colonel) (font_size font_file : ℕ) (r : Option ℕ)
    → Keeps (with_rsdp2 rounds system font_size font_file r)
unfolding with_rsdp2 hang
with_rsdp2-Keeps rounds system font_size font_file none fw h i = i
with_rsdp2-Keeps rounds system font_size font_file (some rsdp2) fw h i =
    if-Keeps (rsdp2 == 0) _ _ (λ fw h i. i)
      (set_up-Keeps rounds (record system { rsdp2 = rsdp2 }) font_size font_file) fw h i

need_file-Keeps :
    (complaint : String) (go_on : (length file : ℕ) → M BootEnd) (file : FileRead)
    → ((length pointer : ℕ) → Keeps (go_on length pointer))
    → Keeps (need_file complaint go_on file)
unfolding need_file hang
need_file-Keeps complaint go_on (success, some (length, pointer)) step fw h i =
    step length pointer fw h i
need_file-Keeps complaint go_on (success, none) step fw h i = i
need_file-Keeps complaint go_on (result, file) step fw h i = i

-- Whatever the firmware answers, every call of `ExitBootServices` that `efi_main` makes comes directly
-- behind a call of `GetMemoryMap` that succeeded, and has the key that this call gave: nothing is
-- printed or allocated between the two.
pub efi_main-IsFresh :
    (rounds : ℕ) (garbage : Colonel) (fw : Firmware) → IsFresh (efi_main rounds garbage fw []).1
unfolding efi_main find_tables
efi_main-IsFresh rounds garbage fw =
    let font = efi_fread "\\EFI\\boot\\unifont.sfn" fw (watchdog_off ∷ cleared_screen ∷ []) in
    need_file-Keeps _ _ font.0
      (λ font_size font_file fw h i.
        let kernel = efi_fread "\\EFI\\boot\\libkernel.so" fw h in
        need_file-Keeps _ _ kernel.0
          (λ kernel_size kernel_file fw h i.
            let (system, h') = efi_malloc colonel_size fw h in
            if-Keeps (system == 0) _ _ hang-Keeps
              (λ fw h i.
                with_rsdp2-Keeps rounds garbage font_size font_file
                  (get_rsdp2 fw.compare_guid fw.acpi2_guid fw.tables) fw h i)
              fw h' (efi_malloc-Keeps colonel_size fw h i))
          fw kernel.1 (efi_fread-Keeps _ fw h i))
      fw font.1 (efi_fread-Keeps _ fw _ tt)
