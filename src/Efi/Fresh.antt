-- ===== src/Efi/Fresh.antt =====
-- Calls of `ExitBootServices` have a fresh key. Here: the parts of the boot stage that do not leave
-- the firmware make no such call.
use Prim.Native.String.{String}
use ech_os.Base.{
  ℕ, zero, suc, ◌==◌, if◌then◌else◌, Option, none, some, List, [], ◌∷◌, Bool, true, false,
}
use ech_os.Base.{◌≡◌, not, ◌&&◌}
use ech_os.Efi.Firmware.{Status, success, invalid_parameter, buffer_too_small}
use ech_os.Efi.Firmware.{out_of_resources, not_found, end_of_file}
use ech_os.Efi.Firmware.{is_error, History, Firmware, M, got_map, exited}
use ech_os.Efi.Firmware.{ret, ◌>>◌}
use ech_os.Efi.Malloc.{malloc_result, efi_malloc, efi_free}
use ech_os.Efi.Mmap.{Descriptor, EfiMmap, descriptors}
use ech_os.Efi.Mmap.Fetch.{
  free_old, give_up, use_buffer, grow, handle_reply, fetch_loop, empty_mmap, get_efi_memory_map,
}
use ech_os.Efi.Fs.{
  Found, FileRead, try_volume, try_handle, find_file, check_read, read_whole, read_found, efi_fread,
}
use ech_os.Efi.Pmm.{Capacity, reserve_capacity}
use ech_os.Efi.Pmm.Reserve.{
  storage_bytes, place_storage, reserve_for, use_map, with_answer, reserve_pmm,
}
use ech_os.Efi.Video.{get_gop, framebuffer_init}
use ech_os.Kernel.Colonel.{Framebuffer}

-- The last call read the memory map, with success and this key.
abbrev pub LastMap : (key : ℕ) → History → Type 0
LastMap key [] = ⊥
LastMap key (got_map size buffer reply ∷ h) = (reply.status ≡ success) × (reply.key ≡ key)
LastMap key (_ ∷ h) = ⊥

-- Every call of `ExitBootServices` came directly behind a call that read the map with that key.
abbrev pub IsFresh : History → Type 0
IsFresh [] = Unit
IsFresh (exited key status ∷ h) = LastMap key h × IsFresh h
IsFresh (_ ∷ h) = IsFresh h

-- Code that keeps it so.
abbrev pub Keeps {ℓ} : {A : Type ℓ} → M A → Type 0
Keeps m = (fw : Firmware) (h : History) → IsFresh h → IsFresh (m fw h).1

pub if-Keeps {ℓ} :
    {A : Type ℓ} (b : Bool) (m n : M A) → Keeps m → Keeps n → Keeps (if b then m else n)
if-Keeps true m n p q = p
if-Keeps false m n p q = q

malloc_result-Keeps : (status : Status) (handle : ℕ) → Keeps (malloc_result status handle)
unfolding malloc_result
malloc_result-Keeps out_of_resources handle fw h i = i
malloc_result-Keeps invalid_parameter handle fw h i = i
malloc_result-Keeps status handle fw h i =
    if-Keeps (is_error status) _ _ (λ fw h i. i) (λ fw h i. i) fw h i

pub efi_malloc-Keeps : (size : ℕ) → Keeps (efi_malloc size)
unfolding efi_malloc
efi_malloc-Keeps size fw h i =
    let (status, handle) = fw.allocate_pool h size in malloc_result-Keeps status handle fw (_ ∷ h) i

efi_free-Keeps : (handle : ℕ) → Keeps (efi_free handle)
unfolding efi_free
efi_free-Keeps handle fw h i = i

free_old-Keeps : (memory_map : ℕ) → Keeps (free_old memory_map)
unfolding free_old
free_old-Keeps memory_map = if-Keeps (memory_map == 0) _ _ (λ fw h i. i) (λ fw h i. i)

give_up-Keeps :
    (result : Status) (mmap : EfiMmap) (memory_map : ℕ) → Keeps (give_up result mmap memory_map)
unfolding give_up
give_up-Keeps result mmap memory_map = free_old-Keeps memory_map

module _ (go_on : EfiMmap → ℕ → M (Option (Status × EfiMmap)))
    (step : (mmap : EfiMmap) (memory_map : ℕ) → Keeps (go_on mmap memory_map)) where
  use_buffer-Keeps :
      (status : Status) (mmap : EfiMmap) (pointer : ℕ)
      → Keeps (use_buffer status mmap pointer go_on)
  unfolding use_buffer
  use_buffer-Keeps success mmap pointer = step mmap pointer
  use_buffer-Keeps status mmap pointer = give_up-Keeps status mmap 0

  grow-Keeps : (mmap : EfiMmap) (memory_map : ℕ) → Keeps (grow mmap memory_map go_on)
  unfolding grow
  grow-Keeps mmap memory_map fw h i =
      use_buffer-Keeps _ _ _ fw (_ ∷ (free_old memory_map fw h).1)
        (free_old-Keeps memory_map fw h i)

  handle_reply-Keeps :
      (status : Status) (mmap : EfiMmap) (memory_map : ℕ)
      → Keeps (handle_reply status mmap memory_map go_on)
  unfolding handle_reply
  handle_reply-Keeps success mmap memory_map fw h i = i
  handle_reply-Keeps buffer_too_small mmap memory_map fw h i = grow-Keeps mmap memory_map fw h i
  handle_reply-Keeps status mmap memory_map fw h i = give_up-Keeps status mmap memory_map fw h i

fetch_loop-Keeps :
    (rounds : ℕ) (mmap : EfiMmap) (memory_map : ℕ) → Keeps (fetch_loop rounds mmap memory_map)
unfolding fetch_loop
fetch_loop-Keeps zero mmap memory_map fw h i = i
fetch_loop-Keeps (suc rounds) mmap memory_map fw h i =
    handle_reply-Keeps (fetch_loop rounds) (fetch_loop-Keeps rounds) _ _ memory_map fw (_ ∷ h) i

module _ (filename : String) (go_on : Status → M Found)
    (step : (result : Status) → Keeps (go_on result)) where
  try_volume-Keeps : (root : ℕ) → Keeps (try_volume filename root go_on)
  unfolding try_volume
  try_volume-Keeps root fw h i =
      let result = (fw.open_file h root filename).0 in
      if-Keeps (is_error result) _ _ (λ fw h i. step result fw _ i) (λ fw h i. i) fw (_ ∷ h) i

  try_handle-Keeps :
      (handle : ℕ) (result : Status) → Keeps (try_handle filename handle result go_on)
  unfolding try_handle
  try_handle-Keeps handle result fw h i =
      let (status, fs) = fw.handle_protocol h handle in
      if-Keeps (is_error status) _ _ (step result)
        (λ fw h i.
          let (status', root) = fw.open_volume h fs in
          if-Keeps (is_error status') _ _ (step result) (try_volume-Keeps root) fw (_ ∷ h) i)
        fw (_ ∷ h) i

find_file-Keeps :
    (filename : String) (handles : List ℕ) (result : Status)
    → Keeps (find_file filename handles result)
unfolding find_file
find_file-Keeps filename [] result fw h i = i
find_file-Keeps filename (handle ∷ handles) result fw h i =
    try_handle-Keeps filename (find_file filename handles) (find_file-Keeps filename handles) handle
      result fw h i

check_read-Keeps : (size data_ : ℕ) (answer : Status × ℕ) → Keeps (check_read size data_ answer)
unfolding check_read
check_read-Keeps size data_ (status, read) =
    let result = if not (is_error status) && not (read == size) then end_of_file else status in
    if-Keeps {A = FileRead} (is_error result) (do efi_free data_; ret (result, none))
      (ret (result, some (size, data_))) (efi_free-Keeps data_) (λ fw h i. i)

read_whole-Keeps : (file : ℕ) → Keeps (read_whole file)
unfolding read_whole
read_whole-Keeps file fw h i =
    let (result, size) = fw.file_info h file in
    if-Keeps (is_error result) _ _ (λ fw h i. i)
      (λ fw h i.
        let (data_, h') = efi_malloc size fw h in
        if-Keeps (data_ == 0) _ _ (λ fw h i. i)
          (λ fw h i. check_read-Keeps size data_ (fw.read_file h file size data_) fw (_ ∷ h) i) fw
          h' (efi_malloc-Keeps size fw h i))
      fw (_ ∷ h) i

read_found-Keeps : (found : Found) → Keeps (read_found found)
unfolding read_found
read_found-Keeps (result, root, file) =
    if-Keeps (file == 0) _ _ (λ fw h i. i) (read_whole-Keeps file)

pub efi_fread-Keeps : (filename : String) → Keeps (efi_fread filename)
unfolding efi_fread
efi_fread-Keeps filename fw h i =
    let (result, handles, pointer) = fw.locate_handle_buffer h in
    if-Keeps (is_error result) _ _ (λ fw h i. i)
      (λ fw h i.
        read_found-Keeps (find_file filename handles not_found fw h).0 fw
          (_ ∷ (find_file filename handles not_found fw h).1)
          (find_file-Keeps filename handles not_found fw h i))
      fw (_ ∷ h) i

place_storage-Keeps : (storage : Capacity) (p : ℕ) → Keeps (place_storage storage p)
unfolding place_storage
place_storage-Keeps storage p = if-Keeps (p == 0) _ _ (λ fw h i. i) (λ fw h i. i)

reserve_for-Keeps : (start : ℕ) (found : Option (List Descriptor)) → Keeps (reserve_for start found)
unfolding reserve_for
reserve_for-Keeps start none fw h i = i
reserve_for-Keeps start (some ds) fw h i =
    let storage = reserve_capacity ds in
    let h' = (efi_free start fw h).1 in
    let (p, h'') = efi_malloc (storage_bytes storage) fw h' in
    place_storage-Keeps storage p fw h''
      (efi_malloc-Keeps (storage_bytes storage) fw h' (efi_free-Keeps start fw h i))

use_map-Keeps : (result : Status) (mmap : EfiMmap) → Keeps (use_map result mmap)
unfolding use_map
use_map-Keeps success mmap fw h i =
    reserve_for-Keeps mmap.start (descriptors (fw.descriptor_at h) mmap) fw h i
use_map-Keeps result mmap fw h i = i

with_answer-Keeps : (r : Option (Status × EfiMmap)) → Keeps (with_answer r)
with_answer-Keeps none fw h i = i
with_answer-Keeps (some (result, mmap)) fw h i = use_map-Keeps result mmap fw h i

pub reserve_pmm-Keeps : (rounds : ℕ) → Keeps (reserve_pmm rounds)
unfolding reserve_pmm get_efi_memory_map
reserve_pmm-Keeps rounds fw h i =
    with_answer-Keeps (get_efi_memory_map rounds fw h).0 fw _
      (fetch_loop-Keeps rounds empty_mmap 0 fw h i)

pub framebuffer_init-Keeps :
    (margin : ℕ) (garbage : Framebuffer) → Keeps (framebuffer_init margin garbage)
unfolding framebuffer_init get_gop
framebuffer_init-Keeps margin garbage fw =
    if-Keeps (is_error fw.graphics.0) _ _ (λ fw h i. i) (λ fw h i. i) fw
