-- ===== src/Efi/Fs.antt =====
-- efi-stage/efi_fs.c. The handles' and the files' pointers are numbers, NULL is 0.
pub mod Laws
use Prim.Native.String.{String}
use ech_os.Base.{ℕ, List, [], ◌∷◌, Option, none, some, if◌then◌else◌, ◌==◌, Bool, not, ◌&&◌}
use ech_os.Efi.Firmware.{
  Status, success, not_found, out_of_resources, end_of_file, is_error, M, ret,
}
use ech_os.Efi.Firmware.{◌>>=◌, ◌>>◌, locate_handle_buffer, handle_protocol, open_volume, open_file}
use ech_os.Efi.Firmware.{close, file_info, read_file, free_pool}
use ech_os.Efi.Malloc.{efi_malloc, efi_free}

-- `result`, `root` and `file` behind the loop over the volumes.
abbrev pub Found : Type 0
Found = Status × ℕ × ℕ

-- The part of the loop's body behind `OpenVolume`; `go_on` is the rest of the loop.
unfoldable pub try_volume : (filename : String) → (root : ℕ) → (go_on : Status → M Found) → M Found
unfolding is_error
try_volume filename root go_on = do
  (result, file) ← open_file root filename
  if is_error result then (do close root; go_on result) else ret (result, root, file)

-- The part behind the loop's header.
unfoldable pub try_handle :
    (filename : String) → (handle : ℕ) → Status → (go_on : Status → M Found) → M Found
unfolding is_error try_volume
try_handle filename handle result go_on = do
  (status, fs) ← handle_protocol handle
  if is_error status then go_on result else (do
    (status', root) ← open_volume fs
    if is_error status' then go_on result else try_volume filename root go_on)

unfoldable pub find_file : (filename : String) → (handles : List ℕ) → Status → M Found
unfolding try_handle
find_file filename [] result = ret (result, 0, 0)
find_file filename (handle ∷ handles) result =
    try_handle filename handle result (find_file filename handles)

-- The length and the buffer that a read leaves, if it succeeds.
abbrev pub FileRead : Type 0
FileRead = Status × Option (ℕ × ℕ)

-- From the answer of `Read` on, short of `close`.
unfoldable pub check_read : (size data_ : ℕ) → Status × ℕ → M FileRead
unfolding is_error
check_read size data_ (status, read) =
    let result = if not (is_error status) && not (read == size) then end_of_file else status in
    if is_error result
    then (do efi_free data_; ret (result, none))
    else ret (result, some (size, data_))

-- From `GetInfo` on, short of `close`.
unfoldable pub read_whole : (file : ℕ) → M FileRead
unfolding is_error check_read
read_whole file = do
  (result, size) ← file_info file
  if is_error result then ret (result, none) else (do
    data_ ← efi_malloc size
    if data_ == 0
        then ret (out_of_resources, none)
        else (do answer ← read_file file size data_; check_read size data_ answer))

-- Behind the loop, with its handles given back.
unfoldable pub read_found : Found → M FileRead
unfolding is_error read_whole
read_found (result, root, file) =
    if file == 0
    then ret ((if is_error result then result else not_found), none)
    else (do answer ← read_whole file; close file; close root; ret answer)

unfoldable pub efi_fread : (filename : String) → M FileRead
unfolding is_error find_file read_found
efi_fread filename = do
  (result, handles, pointer) ← locate_handle_buffer
  if is_error result then ret (result, none) else (do
    found ← find_file filename handles not_found
    status ← free_pool pointer
    read_found found)
