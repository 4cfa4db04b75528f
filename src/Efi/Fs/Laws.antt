-- ===== src/Efi/Fs/Laws.antt =====
-- `efi_fread` holds the file's buffer where it succeeds, nothing where it fails, and no open file.
use Prim.Native.String.{String}
use ech_os.Base.{ℕ, List, [], ◌∷◌, none, some, if◌then◌else◌, ◌==◌, ◌&&◌, not, true, false}
use ech_os.Base.{◌≡◌, ◌≢◌, refl, ap, ◌∙◌, arith, inl, inr, Bool-cases}
use ech_os.Efi.Firmware.{
  Status, not_found, out_of_resources, end_of_file, is_error, M, ret, ◌>>=◌, read_file,
}
use ech_os.Efi.Firmware.{
  History, Firmware, located, got_protocol, opened_volume, opened, closed, got_info, freed,
}
use ech_os.Efi.Pools.{live_pools, live_files, gain, erase, erase-head, IsFirmware}
use ech_os.Efi.Malloc.{efi_malloc, efi_free}
use ech_os.Efi.Malloc.Laws.{Malloc, refused, given, efi_malloc-Malloc, efi_free-live_pools}
use ech_os.Efi.Fs.{
  Found, FileRead, try_volume, try_handle, find_file, check_read, read_whole, read_found, efi_fread,
}

-- What a call leaves that was made with the buffers `pools` and the files `files`.
pub data Read (pools files : List ℕ) : FileRead → History → Type 0 where
  failed :
      (status : Status) (h : History)
      → is_error status ≡ true
      → live_pools h ≡ pools
      → live_files h ≡ files
      → Read pools files (status, none) h
  read_all :
      (status : Status) (length buffer : ℕ) (h : History)
      → is_error status ≡ false
      → buffer ≢ 0
      → live_pools h ≡ buffer ∷ pools
      → live_files h ≡ files
      → Read pools files (status, some (length, buffer)) h

check_read-Read :
    (size data_ : ℕ) (answer : Status × ℕ) (fw : Firmware) (h : History) (pools files : List ℕ)
    → data_ ≢ 0
    → live_pools h ≡ data_ ∷ pools
    → live_files h ≡ files
    → Read pools files (check_read size data_ answer fw h).0 (check_read size data_ answer fw h).1
unfolding check_read efi_free live_files
check_read-Read size data_ (status, read) fw h pools files real e f =
    let result = if not (is_error status) && not (read == size) then end_of_file else status in
    elim (Bool-cases (is_error result)) [
      | inl bad ↦ rw bad (failed _ _ bad (efi_free-live_pools data_ fw h pools e) f)
      | inr good ↦ rw good (read_all _ size data_ h good real e f)
    ]

read_whole-Read :
    (file : ℕ) (fw : Firmware) (h : History) (pools files : List ℕ)
    → IsFirmware fw
    → live_pools h ≡ pools
    → live_files h ≡ files
    → Read pools files (read_whole file fw h).0 (read_whole file fw h).1
unfolding read_whole live_pools live_files is_error
read_whole-Read file fw h pools files laws e f =
    let (status, size) = fw.file_info h file in
    let h' = got_info file status size ∷ h in
    elim (Bool-cases (is_error status)) [
      | inl bad ↦ rw bad (failed status h' bad e f)
      | inr good ↦ rw good (
          with_buffer (efi_malloc size fw h').0 (efi_malloc size fw h').1 size
            (efi_malloc-Malloc size fw h' pools files laws e f))
    ]
  where
    with_buffer :
        (pointer : ℕ) (h' : History) (size : ℕ)
        → Malloc pools files pointer h'
        → let r =
            (if pointer == 0
                then ret (out_of_resources, none)
                else (do answer ← read_file file size pointer; check_read size pointer answer))
              fw h' in
          Read pools files r.0 r.1
    with_buffer pointer h' size (refused z e' f') = rw z (failed out_of_resources h' refl e' f')
    with_buffer pointer h' size (given nz e' f') =
        let real : (pointer == 0) ≡ false = ground (arith, nz) in
        rw real (
          check_read-Read size pointer (fw.read_file h' file size pointer) fw _ pools files nz e'
            f')

-- What the loop over the volumes leaves.
data FoundFile (pools files : List ℕ) : Found → History → Type 0 where
  no_file :
      (result : Status) (root : ℕ) (h : History)
      → live_pools h ≡ pools
      → live_files h ≡ files
      → FoundFile pools files (result, root, 0) h
  a_file :
      (result : Status) (root file : ℕ) (h : History)
      → file ≢ 0
      → live_pools h ≡ pools
      → live_files h ≡ file ∷ root ∷ files
      → FoundFile pools files (result, root, file) h

module _ (filename : String) (fw : Firmware) (laws : IsFirmware fw) (pools files : List ℕ)
    (go_on : Status → M Found)
    (step : (result : Status) (h : History)
      → live_pools h ≡ pools
      → live_files h ≡ files
      → FoundFile pools files (go_on result fw h).0 (go_on result fw h).1) where
  try_volume-FoundFile :
      (root : ℕ) (h : History)
      → live_pools h ≡ pools
      → live_files h ≡ root ∷ files
      → FoundFile pools files
          (try_volume filename root go_on fw h).0
          (try_volume filename root go_on fw h).1
  unfolding try_volume live_pools live_files gain
  try_volume-FoundFile root h e f =
      let (result, file) = fw.open_file h root filename in
      let h' = opened root filename result file ∷ h in
      elim (Bool-cases (is_error result)) [
        | inl bad ↦
            let still : live_files h' ≡ root ∷ files = rw bad f in
            rw bad (
              step result (closed root ∷ h') e
                (ap (λ l. erase root l) still ∙ erase-head root files))
        | inr good ↦ rw good (
            a_file result root file h' (laws.opens h root filename good) e
              (rw good (ap (λ l. file ∷ l) f)))
      ]

  try_handle-FoundFile :
      (handle : ℕ) (result : Status) (h : History)
      → live_pools h ≡ pools
      → live_files h ≡ files
      → FoundFile pools files
          (try_handle filename handle result go_on fw h).0
          (try_handle filename handle result go_on fw h).1
  unfolding try_handle live_pools live_files gain
  try_handle-FoundFile handle result h e f =
      let (status, fs) = fw.handle_protocol h handle in
      let h' = got_protocol handle status fs ∷ h in
      let (status', root) = fw.open_volume h' fs in
      let h'' = opened_volume fs status' root ∷ h' in
      elim (Bool-cases (is_error status)) [
        | inl bad ↦ rw bad (step result h' e f)
        | inr good ↦ elim (Bool-cases (is_error status')) [
          | inl bad' ↦ rw (good, bad') (step result h'' e (rw bad' f))
          | inr good' ↦
              rw (good, good') (try_volume-FoundFile root h'' e (rw good' (ap (λ l. root ∷ l) f)))
        ]
      ]

find_file-FoundFile :
    (filename : String) (handles : List ℕ) (result : Status) (fw : Firmware) (h : History)
    (pools files : List ℕ)
    → IsFirmware fw
    → live_pools h ≡ pools
    → live_files h ≡ files
    → FoundFile pools files
        (find_file filename handles result fw h).0
        (find_file filename handles result fw h).1
unfolding find_file
find_file-FoundFile filename [] result fw h pools files laws e f = no_file result 0 h e f
find_file-FoundFile filename (handle ∷ handles) result fw h pools files laws e f =
    try_handle-FoundFile filename fw laws pools files (find_file filename handles)
      (λ result' h' e' f'.
        find_file-FoundFile filename handles result' fw h' pools files laws e' f')
      handle result h e f

-- The file and the root of its volume are closed in the end.
close_both :
    (root file : ℕ) (r : FileRead) (h : History) (pools files : List ℕ)
    → Read pools (file ∷ root ∷ files) r h
    → Read pools files r (closed root ∷ closed file ∷ h)
unfolding live_files live_pools
close_both root file r h pools files read = elim_read read
  where
    both : live_files h ≡ file ∷ root ∷ files → erase root (erase file (live_files h)) ≡ files
    both f =
        ap (λ l. erase root (erase file l)) f
        ∙ ap (λ l. erase root l) (erase-head file (root ∷ files))
        ∙ erase-head root files

    elim_read :
        {r' : FileRead}
        → Read pools (file ∷ root ∷ files) r' h
        → Read pools files r' (closed root ∷ closed file ∷ h)
    elim_read (failed status _ bad e f) = failed status _ bad e (both f)
    elim_read (read_all status length buffer _ good nz e f) =
        read_all status length buffer _ good nz e (both f)

read_found-Read :
    (found : Found) (fw : Firmware) (h : History) (pools files : List ℕ)
    → IsFirmware fw
    → FoundFile pools files found h
    → Read pools files (read_found found fw h).0 (read_found found fw h).1
unfolding read_found is_error
read_found-Read found fw h pools files laws (no_file result root _ e f) =
    elim (Bool-cases (is_error result)) [
      | inl bad ↦ rw bad (failed result h bad e f)
      | inr good ↦ rw good (failed not_found h refl e f)
    ]
read_found-Read found fw h pools files laws (a_file result root file _ nz e f) =
    let real : (file == 0) ≡ false = ground (arith, nz) in
    rw real (
      close_both root file (read_whole file fw h).0 (read_whole file fw h).1 pools files
        (read_whole-Read file fw h pools (file ∷ root ∷ files) laws e f))

-- The handles go back behind the loop.
behind_loop :
    (pointer : ℕ) (found : Found) (h : History) (fw : Firmware)
    → IsFirmware fw
    → (pools files : List ℕ) → FoundFile (pointer ∷ pools) files found h
    → let h' = freed pointer (fw.free_pool h pointer) ∷ h in
      Read pools files (read_found found fw h').0 (read_found found fw h').1
unfolding live_pools live_files
behind_loop pointer found h fw laws pools files f =
    read_found-Read found fw _ pools files laws (given_back f)
  where
    back : live_pools h ≡ pointer ∷ pools → erase pointer (live_pools h) ≡ pools
    back e = ap (λ l. erase pointer l) e ∙ erase-head pointer pools

    given_back :
        {found' : Found}
        → FoundFile (pointer ∷ pools) files found' h
        → FoundFile pools files found' (freed pointer (fw.free_pool h pointer) ∷ h)
    given_back (no_file result root _ e l) = no_file result root _ (back e) l
    given_back (a_file result root file _ nz e l) = a_file result root file _ nz (back e) l

-- However many volumes there are and whatever call fails, `efi_fread` gives back all that it opened
-- and every buffer but the one that it returns: on success it holds that buffer more than before,
-- which is not NULL, and the returned status is no error; else it holds what it held, and the
-- returned status is an error.
pub efi_fread_lem :
    (filename : String) (fw : Firmware) (h : History)
    → IsFirmware fw
    → Read (live_pools h) (live_files h) (efi_fread filename fw h).0 (efi_fread filename fw h).1
unfolding efi_fread live_pools live_files gain
efi_fread_lem filename fw h laws =
    let (status, handles, pointer) = fw.locate_handle_buffer h in
    let h' = located status handles pointer ∷ h in
    elim (Bool-cases (is_error status)) [
      | inl bad ↦ rw bad (failed status h' bad (rw bad refl) refl)
      | inr good ↦ rw good (
          behind_loop pointer (find_file filename handles not_found fw h').0
            (find_file filename handles not_found fw h').1 fw laws (live_pools h) (live_files h)
            (find_file-FoundFile filename handles not_found fw h' (pointer ∷ live_pools h)
              (live_files h) laws (rw good refl) refl))
    ]
