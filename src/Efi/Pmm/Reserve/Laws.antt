-- ===== src/Efi/Pmm/Reserve/Laws.antt =====
-- `reserve_pmm` holds the storage where it succeeds, and nothing where it fails.
use ech_os.Base.{ℕ, ◌==◌, Option, none, some, List, ◌∷◌}
use ech_os.Base.{◌≡◌, ◌≢◌, refl, arith, false}
use ech_os.Efi.Mmap.{Descriptor, EfiMmap, descriptors}
use ech_os.Efi.Firmware.{Status, success}
use ech_os.Efi.Firmware.{out_of_resources}
use ech_os.Efi.Firmware.{History, Firmware, got_map}
use ech_os.Efi.Malloc.{efi_malloc, efi_free}
use ech_os.Efi.Malloc.Laws.{Malloc, refused, given, efi_malloc-Malloc, efi_free-live_pools}
use ech_os.Efi.Mmap.Fetch.{get_efi_memory_map}
use ech_os.Efi.Mmap.Fetch.Laws.{Fetched, unfinished, fetched, get_efi_memory_map_lem}
use ech_os.Efi.Mmap.Fetch.Laws as Fetch
use ech_os.Efi.Pools.{live_pools, live_files, IsFirmware}
use ech_os.Efi.Pmm.{Capacity, reserve_capacity}
use ech_os.Efi.Pmm.Reserve.{
  Reservation, storage_bytes, lay_out, place_storage, reserve_for, use_map, with_answer,
  reserve_pmm,
}

pub data Reserved (pools : List ℕ) : Reservation → History → Type 0 where
  unknown : (h : History) → Reserved pools none h
  failed :
      (result : Status) (h : History)
      → result ≢ success
      → live_pools h ≡ pools
      → Reserved pools (some (result, none)) h
  reserved :
      (p : ℕ) (storage : Capacity) (h : History)
      → p ≢ 0
      → live_pools h ≡ p ∷ pools
      → Reserved pools (some (success, some (lay_out p storage))) h

place_storage-Reserved :
    (storage : Capacity) (p : ℕ) (fw : Firmware) (h : History) (pools files : List ℕ)
    → Malloc pools files p h
    → Reserved pools (place_storage storage p fw h).0 (place_storage storage p fw h).1
unfolding place_storage live_pools
place_storage-Reserved storage p fw h pools files (refused z e f) =
    rw z (failed out_of_resources _ (cc) e)
place_storage-Reserved storage p fw h pools files (given nz e f) =
    let real : (p == 0) ≡ false = ground (arith, nz) in rw real (reserved p storage h nz e)

use_map-refused :
    (result : Status) (mmap : EfiMmap) (fw : Firmware) (h : History) (pools : List ℕ)
    → result ≢ success
    → live_pools h ≡ pools
    → Reserved pools (use_map result mmap fw h).0 (use_map result mmap fw h).1
unfolding use_map live_pools
use_map-refused success mmap fw h pools bad e = absurd (bad refl)
use_map-refused result mmap fw h pools bad e = failed result _ bad e

reserve_for-Reserved :
    (start : ℕ) (found : Option (List Descriptor)) (fw : Firmware) (h : History) (pools : List ℕ)
    → IsFirmware fw
    → live_pools h ≡ start ∷ pools
    → Reserved pools (reserve_for start found fw h).0 (reserve_for start found fw h).1
unfolding reserve_for
reserve_for-Reserved start none fw h pools laws e = unknown h
reserve_for-Reserved start (some ds) fw h pools laws e =
    let storage = reserve_capacity ds in
    let free = efi_free start fw h in
    let p = efi_malloc (storage_bytes storage) fw free.1 in
    place_storage-Reserved storage p.0 fw p.1 pools (live_files free.1) (
      efi_malloc-Malloc (storage_bytes storage) fw free.1 pools (live_files free.1) laws
        (efi_free-live_pools start fw h pools e) refl)

answer-Reserved :
    (r : Option (Status × EfiMmap)) (fw : Firmware) (h : History) (pools : List ℕ)
    → IsFirmware fw
    → Fetched pools r h
    → Reserved pools (with_answer r fw h).0 (with_answer r fw h).1
unfolding use_map live_pools
answer-Reserved r fw h pools laws (unfinished _) = unknown h
answer-Reserved r fw h pools laws (Fetch.refused result mmap _ bad _ _ e) =
    use_map-refused result mmap fw h pools bad e
answer-Reserved r fw _ pools laws (fetched mmap size reply h nz s _ _ _ e) =
    reserve_for-Reserved mmap.start (descriptors (fw.descriptor_at h') mmap) fw h' pools laws e
  where
    h' : History
    h' = got_map size mmap.start reply ∷ h

-- However often `getEFIMemoryMap` asks, where `reserve_pmm` returns it holds the storage that it laid
-- out, which is not NULL, and nothing else more than before, or it failed and holds what it held.
pub reserve_pmm_lem :
    (rounds : ℕ) (fw : Firmware) (h : History)
    → IsFirmware fw
    → Reserved (live_pools h) (reserve_pmm rounds fw h).0 (reserve_pmm rounds fw h).1
unfolding reserve_pmm
reserve_pmm_lem rounds fw h laws =
    answer-Reserved (get_efi_memory_map rounds fw h).0 fw (get_efi_memory_map rounds fw h).1
      (live_pools h) laws (get_efi_memory_map_lem rounds fw h laws)
