-- ===== src/Efi/Mmap/Fetch.antt =====
-- efi-stage/efi_mmap.c: `getEFIMemoryMap`, which asks for the map until its buffer is large enough.
pub mod Laws
pub mod Ends
use ech_os.Base.{ℕ, zero, suc, ◌+◌, ◌*◌, ◌==◌, if◌then◌else◌, Option, none, some, u64}
use ech_os.Efi.Mmap.{EfiMmap}
use ech_os.Efi.Firmware.{Status, success, buffer_too_small, is_error, M, MapReply, ret}
use ech_os.Efi.Firmware.{◌>>=◌, ◌>>◌, get_memory_map, allocate_pool, free_pool}

-- `mmap` with the fields that a call of `GetMemoryMap` writes.
abbrev pub answered : EfiMmap → MapReply → EfiMmap
answered mmap reply = record mmap {
  size = reply.size;
  key = reply.key;
  descriptor_size = reply.descriptor_size;
}

-- `if(memoryMap != NULL) FreePool(memoryMap)`.
unfoldable pub free_old : (memory_map : ℕ) → M (Unit {0})
free_old memory_map = if memory_map == 0 then ret tt else (do status ← free_pool memory_map; ret tt)

-- Behind the loop, where it failed.
unfoldable pub give_up : Status → EfiMmap → (memory_map : ℕ) → M (Option (Status × EfiMmap))
unfolding free_old
give_up result mmap memory_map = do
  free_old memory_map
  ret (some (result, record mmap { start = 0; end = 0 }))

-- Behind the loop, where it succeeded.
abbrev pub found : EfiMmap → (memory_map : ℕ) → Option (Status × EfiMmap)
found mmap memory_map =
    some (success, record mmap { start = memory_map; end = u64 (memory_map + mmap.size) })

-- The part of the loop behind `AllocatePool`; `go_on` is the next round.
unfoldable pub use_buffer :
    Status
    → EfiMmap
    → (pointer : ℕ) → (go_on : EfiMmap → ℕ → M (Option (Status × EfiMmap)))
    → M (Option (Status × EfiMmap))
unfolding give_up
use_buffer success mmap pointer go_on = go_on mmap pointer
use_buffer result mmap pointer go_on = give_up result mmap 0

-- The body of the loop behind the answer that the buffer is too small.
unfoldable pub grow :
    EfiMmap
    → (memory_map : ℕ) → (go_on : EfiMmap → ℕ → M (Option (Status × EfiMmap)))
    → M (Option (Status × EfiMmap))
unfolding free_old use_buffer
grow mmap memory_map go_on =
    let size = u64 (mmap.size + u64 (2 * mmap.descriptor_size)) in
    do
      free_old memory_map
      (result, pointer) ← allocate_pool size
      use_buffer result (record mmap { size = size }) pointer go_on

-- What a round does with the answer to `GetMemoryMap`.
unfoldable pub handle_reply :
    Status
    → EfiMmap
    → (memory_map : ℕ) → (go_on : EfiMmap → ℕ → M (Option (Status × EfiMmap)))
    → M (Option (Status × EfiMmap))
unfolding grow give_up
handle_reply success mmap memory_map go_on = ret (found mmap memory_map)
handle_reply buffer_too_small mmap memory_map go_on = grow mmap memory_map go_on
handle_reply result mmap memory_map go_on = give_up result mmap memory_map

-- The loop; `none` where its rounds run out.
unfoldable pub fetch_loop :
    (rounds : ℕ) → EfiMmap → (memory_map : ℕ) → M (Option (Status × EfiMmap))
unfolding handle_reply
fetch_loop zero mmap memory_map = ret none
fetch_loop (suc rounds) mmap memory_map = do
  reply ← get_memory_map mmap.size memory_map
  handle_reply reply.status (answered mmap reply) memory_map (fetch_loop rounds)

abbrev pub empty_mmap : EfiMmap
empty_mmap = record { start = 0; end = 0; size = 0; key = 0; descriptor_size = 0 }

-- For an `mmap` that the caller set to zeros, as `reserve_pmm` does.
unfoldable pub get_efi_memory_map : (rounds : ℕ) → M (Option (Status × EfiMmap))
unfolding fetch_loop
get_efi_memory_map rounds = fetch_loop rounds empty_mmap 0
