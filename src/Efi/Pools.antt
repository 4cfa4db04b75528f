-- ===== src/Efi/Pools.antt =====
-- Which buffers and files the code holds, by the log of its calls, and what the firmware documents
-- of its answers.
use Prim.Native.String.{String}
use ech_os.Base.{ℕ, List, [], ◌∷◌, true, false, ◌==◌, if◌then◌else◌, ◌≡◌, ◌≢◌, ◌⊎◌, arith}
use ech_os.Efi.Firmware.{Status, success, is_error, History, Firmware, allocated, freed}
use ech_os.Efi.Firmware.{located, opened_volume, opened, closed}

-- The list without the first `x`.
abbrev pub erase : ℕ → List ℕ → List ℕ
erase x [] = []
erase x (y ∷ ys) = if x == y then ys else y ∷ erase x ys

pub erase-head : (x : ℕ) (ys : List ℕ) → erase x (x ∷ ys) ≡ ys
erase-head x ys = ground arith

-- What a call that gives `x` on success adds.
unfoldable pub gain : Status → ℕ → List ℕ → List ℕ
unfolding is_error
gain status x held = if is_error status then held else x ∷ held

-- The pool buffers that were given and not given back.
unfoldable pub live_pools : History → List ℕ
live_pools [] = []
live_pools (allocated size status pointer ∷ h) = gain status pointer (live_pools h)
live_pools (located status handles pointer ∷ h) = gain status pointer (live_pools h)
live_pools (freed pointer status ∷ h) = erase pointer (live_pools h)
live_pools (_ ∷ h) = live_pools h

-- The volumes' roots and the files that were opened and not closed.
unfoldable pub live_files : History → List ℕ
live_files [] = []
live_files (opened_volume fs status root ∷ h) = gain status root (live_files h)
live_files (opened root name status file ∷ h) = gain status file (live_files h)
live_files (closed handle ∷ h) = erase handle (live_files h)
live_files (_ ∷ h) = live_files h

-- What the specification of UEFI says of the answers: a buffer or a file that is given is not
-- NULL, `AllocatePool` succeeds or fails with an error, and `GetMemoryMap` does not fill NULL.
pub record IsFirmware (fw : Firmware) : Type 0 where
  pub allocates :
      (h : History) (size : ℕ)
      → (is_error (fw.allocate_pool h size).0 ≡ true)
        ⊎ (((fw.allocate_pool h size).0 ≡ success) × ((fw.allocate_pool h size).1 ≢ 0))
  pub fills_a_buffer : (h : History) (size : ℕ) → (fw.get_memory_map h size 0).status ≢ success
  pub opens :
      (h : History) (root : ℕ) (name : String)
      → is_error (fw.open_file h root name).0 ≡ false
      → (fw.open_file h root name).1 ≢ 0
