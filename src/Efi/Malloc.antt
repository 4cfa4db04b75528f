-- ===== src/Efi/Malloc.antt =====
-- efi-stage/efi_malloc.c; NULL is 0.
pub mod Laws
use ech_os.Base.{ℕ, if◌then◌else◌}
use ech_os.Efi.Firmware.{
  Status, success, out_of_resources, invalid_parameter, is_error, M, ret, print,
}
use ech_os.Efi.Firmware.{◌>>=◌, ◌>>◌, allocate_pool, free_pool}

-- What `efi_malloc` makes of the answer.
unfoldable pub malloc_result : Status → (handle : ℕ) → M ℕ
malloc_result out_of_resources handle = do print "out of resources for pool\n"; ret 0
malloc_result invalid_parameter handle = do print "invalid pool type\n"; ret 0
malloc_result status handle =
    if is_error status then (do print "AllocatePool failed: 0x%lx\n"; ret 0) else ret handle

unfoldable pub efi_malloc : (pool_size : ℕ) → M ℕ
unfolding malloc_result is_error
efi_malloc pool_size = do (status, handle) ← allocate_pool pool_size; malloc_result status handle

unfoldable pub efi_free : (handle : ℕ) → M (Unit {0})
efi_free handle = do status ← free_pool handle; ret tt
