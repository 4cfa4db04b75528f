-- ===== src/Efi/Malloc/Laws.antt =====
-- What `efi_malloc` and `efi_free` do to the buffers that the code holds.
use ech_os.Base.{ℕ, List, ◌∷◌, ◌≡◌, ◌≢◌, ◌⊎◌, refl, ap, ◌∙◌, inl, inr, true}
use ech_os.Efi.Firmware.{Status, success}
use ech_os.Efi.Firmware.{warning}
use ech_os.Efi.Firmware.{is_error, History, Firmware, allocated}
use ech_os.Efi.Pools.{live_pools, live_files, gain, erase, erase-head, IsFirmware}
use ech_os.Efi.Malloc.{malloc_result, efi_malloc, efi_free}

-- A call that returns NULL holds what it held; another holds what it returns as well.
pub data Malloc (pools files : List ℕ) (pointer : ℕ) (h : History) : Type 0 where
  refused : pointer ≡ 0 → live_pools h ≡ pools → live_files h ≡ files → Malloc pools files pointer h
  given :
      pointer ≢ 0
      → live_pools h ≡ pointer ∷ pools
      → live_files h ≡ files
      → Malloc pools files pointer h

malloc_result-Malloc :
    (status : Status) (pointer : ℕ) (pools files : List ℕ) (fw : Firmware) (h : History)
    → (is_error status ≡ true) ⊎ ((status ≡ success) × (pointer ≢ 0))
    → live_pools h ≡ gain status pointer pools
    → live_files h ≡ files
    → Malloc pools files (malloc_result status pointer fw h).0 (malloc_result status pointer fw h).1
unfolding malloc_result gain live_pools live_files is_error
malloc_result-Malloc success pointer pools files fw h (inl bad) e f = cc
malloc_result-Malloc success pointer pools files fw h (inr (_, real)) e f = given real e f
malloc_result-Malloc (warning n) pointer pools files fw h (inl bad) e f = cc
malloc_result-Malloc (warning n) pointer pools files fw h (inr (good, _)) e f = cc
malloc_result-Malloc status pointer pools files fw h _ e f = refused refl e f

pub efi_malloc-Malloc :
    (size : ℕ) (fw : Firmware) (h : History) (pools files : List ℕ)
    → IsFirmware fw
    → live_pools h ≡ pools
    → live_files h ≡ files
    → Malloc pools files (efi_malloc size fw h).0 (efi_malloc size fw h).1
unfolding efi_malloc live_pools live_files
efi_malloc-Malloc size fw h pools files laws e f =
    let (status, pointer) = fw.allocate_pool h size in
    malloc_result-Malloc status pointer pools files fw (allocated size status pointer ∷ h)
      (laws.allocates h size) (ap (gain status pointer) e) f

pub efi_free-live_pools :
    (pointer : ℕ) (fw : Firmware) (h : History) (pools : List ℕ)
    → live_pools h ≡ pointer ∷ pools
    → live_pools (efi_free pointer fw h).1 ≡ pools
unfolding efi_free live_pools
efi_free-live_pools pointer fw h pools e = ap (λ l. erase pointer l) e ∙ erase-head pointer pools
