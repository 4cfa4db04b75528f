-- ===== src/Efi/Pmm/Reserve.antt =====
-- efi-stage/efi_pmm.c: `reserve_pmm`, which sizes and lays out the storage of the PMM.
pub mod Laws
pub mod Layout
use ech_os.Base.{
  ℕ, zero, suc, ◌+◌, ◌*◌, ◌==◌, if◌then◌else◌, Option, none, some, List, [], ◌∷◌, u64,
}
use ech_os.Efi.Mmap.{Descriptor, EfiMmap, descriptors}
use ech_os.Efi.Mmap.Fetch.{get_efi_memory_map}
use ech_os.Efi.Firmware.{
  Status, success, out_of_resources, M, ret, print, ◌>>=◌, ◌>>◌, descriptor_at,
}
use ech_os.Efi.Malloc.{efi_malloc, efi_free}
use ech_os.Efi.Pmm.{Capacity, reserve_capacity}
use ech_os.Pmm.{pm_block_size}

-- `pmm_storage`, and the pointers of `physical_memory->blocks`.
pub record PmmStorage : Type 0 where
  pub physical_memory : ℕ
  pub blocks : ℕ
  pub block_table : List ℕ
  pub bitmap : ℕ
  pub capacity : Capacity

-- `sizeof(pmm)` and the size of a pointer.
abbrev pub pmm_size : ℕ
pmm_size = 16

abbrev pub pointer_size : ℕ
pointer_size = 8

unfoldable pub storage_bytes : Capacity → ℕ
storage_bytes storage = u64 (
    u64 (
      u64 (pmm_size + u64 (storage.block_capacity * pointer_size))
      + u64 (storage.block_capacity * pm_block_size))
    + u64 (storage.bitmap_words * 8))

-- The loop that places the blocks from `p` on: their pointers, and `p` behind them.
unfoldable pub place_blocks : (left p : ℕ) → List ℕ × ℕ
place_blocks zero p = ([], p)
place_blocks (suc left) p =
    let (pointers, behind) = place_blocks left (u64 (p + pm_block_size)) in (p ∷ pointers, behind)

unfoldable pub lay_out : (p : ℕ) → Capacity → PmmStorage
unfolding place_blocks
lay_out p storage =
    let blocks = u64 (p + pmm_size) in
    let first = u64 (blocks + u64 (storage.block_capacity * pointer_size)) in
    let (pointers, behind) = place_blocks storage.block_capacity first in
    record {
      physical_memory = p;
      blocks = blocks;
      block_table = pointers;
      bitmap = behind;
      capacity = storage;
    }

abbrev pub Reservation : Type 0
Reservation = Option (Status × Option PmmStorage)

-- From the allocation of the storage on.
unfoldable pub place_storage : Capacity → (p : ℕ) → M Reservation
unfolding lay_out
place_storage storage p =
    if p == 0
    then (do
      print "Could not allocate %d bytes for the PMM.\n"
      ret (some (out_of_resources, none)))
    else ret (some (success, some (lay_out p storage)))

-- Behind the loop over the provisional memory map at `start`; `none` where it does not end.
unfoldable pub reserve_for : (start : ℕ) → Option (List Descriptor) → M Reservation
unfolding place_storage storage_bytes reserve_capacity
reserve_for start none = ret none
reserve_for start (some ds) = do
  let storage = reserve_capacity ds
  efi_free start
  p ← efi_malloc (storage_bytes storage)
  place_storage storage p

-- From the provisional memory map on.
unfoldable pub use_map : Status → EfiMmap → M Reservation
unfolding reserve_for descriptors
use_map success mmap = do read ← descriptor_at; reserve_for mmap.start (descriptors read mmap)
use_map result mmap = do print "Error getting EFI memory map.\n"; ret (some (result, none))

abbrev pub with_answer : Option (Status × EfiMmap) → M Reservation
with_answer none = ret none
with_answer (some (result, mmap)) = use_map result mmap

-- `none` where the rounds of `getEFIMemoryMap` run out, or a loop over the map does not end.
unfoldable pub reserve_pmm : (rounds : ℕ) → M Reservation
unfolding use_map
reserve_pmm rounds = do answer ← get_efi_memory_map rounds; with_answer answer
