-- ===== src/Paging/Debug.antt =====
-- kernel/memory/paging_debug.c: what it prints of an entry, as its calls of `ssfn_printf`.
use Prim.Native.String.{String}
use ech_os.Base.{ℕ, List, [], ◌∷◌, if◌then◌else◌, bit_and, ◌≡◌, refl}
use ech_os.Paging.{has_bit, present_bit, read_write_bit, user_supervisor_bit, page_size_bit}

abbrev page_level_writethrough_bit : ℕ
page_level_writethrough_bit = 0x8

abbrev page_level_cache_disable_bit : ℕ
page_level_cache_disable_bit = 0x10

abbrev accessed_bit : ℕ
accessed_bit = 0x20

abbrev dirty_bit : ℕ
dirty_bit = 0x40

abbrev global_page_bit : ℕ
global_page_bit = 0x100

abbrev nx_bit : ℕ
nx_bit = 0x8000_0000_0000_0000

-- A call of `ssfn_printf`: its format, and its one argument.
pub data Line : Type 0 where
  number : (format : String) → (value : ℕ) → Line
  text : (format : String) → (value : String) → Line

-- `(entry & bit) ? set : clear`.
abbrev choose : (entry bit : ℕ) → (set clear : String) → String
choose entry bit set clear = if has_bit entry bit then set else clear

unfoldable pub dump_pte : (entry : ℕ) → List Line
dump_pte entry =
    number "Page table entry: 0x%llx\n" entry
    ∷ number "    Physical address: 0x%llx\n" (bit_and entry 0xffff_ffff_f000)
    ∷ text "    Present: %s\n" (choose entry present_bit "True" "False")
    ∷ text "    Writeable: %s\n" (choose entry read_write_bit "True" "False")
    ∷ text "    User accessible: %s\n" (choose entry user_supervisor_bit "False" "True")
    ∷ text "    Page level write-through: %s\n"
        (choose entry page_level_writethrough_bit "True" "False")
    ∷ text "    Page level cache disable: %s\n"
        (choose entry page_level_cache_disable_bit "True" "False")
    ∷ text "    Accessed: %s\n" (choose entry accessed_bit "True" "False")
    ∷ text "    Dirty: %s\n" (choose entry dirty_bit "True" "False")
    ∷ text "    PAT: %s\n" (choose entry page_size_bit "1" "0")
    ∷ text "    Global: %s\n" (choose entry global_page_bit "True" "False")
    ∷ text "    NX: %s\n" (choose entry nx_bit "True" "False")
    ∷ []

unfoldable pub dump_paging_bits : (entry : ℕ) → List Line
dump_paging_bits entry =
    number "    Physical address of table: 0x%llx\n" (bit_and entry 0xffff_ffff_f000)
    ∷ text "    Present: %s\n" (choose entry present_bit "True" "False")
    ∷ text "    Writeable: %s\n" (choose entry read_write_bit "True" "False")
    ∷ text "    User accessible: %s\n" (choose entry user_supervisor_bit "False" "True")
    ∷ text "    Page level write-through: %s\n"
        (choose entry page_level_writethrough_bit "True" "False")
    ∷ text "    Page level cache disable: %s\n"
        (choose entry page_level_cache_disable_bit "True" "False")
    ∷ text "    Accessed: %s\n" (choose entry accessed_bit "True" "False")
    ∷ text "    Dirty: %s\n" (choose entry dirty_bit "True" "False")
    ∷ text "    Page size: %s\n" (choose entry page_size_bit "1" "0")
    ∷ text "    Global: %s\n" (choose entry global_page_bit "True" "False")
    ∷ text "    NX: %s\n" (choose entry nx_bit "True" "False")
    ∷ []

unfoldable pub dump_pde : (entry : ℕ) → List Line
unfolding dump_paging_bits
dump_pde entry = number "Page directory entry: 0x%llx\n" entry ∷ dump_paging_bits entry

unfoldable pub dump_pdpe : (entry : ℕ) → List Line
unfolding dump_paging_bits
dump_pdpe entry = number "Page directory pointer entry: 0x%llx\n" entry ∷ dump_paging_bits entry

-- A table that user code may reach, in a frame at 2^48: it is shown as out of its reach, at 0.
user_frame :
    dump_pde 0x1_0000_0000_0007
    ≡ number "Page directory entry: 0x%llx\n" 0x1_0000_0000_0007
      ∷ number "    Physical address of table: 0x%llx\n" 0
      ∷ text "    Present: %s\n" "True"
      ∷ text "    Writeable: %s\n" "True"
      ∷ text "    User accessible: %s\n" "False"
      ∷ text "    Page level write-through: %s\n" "False"
      ∷ text "    Page level cache disable: %s\n" "False"
      ∷ text "    Accessed: %s\n" "False"
      ∷ text "    Dirty: %s\n" "False"
      ∷ text "    Page size: %s\n" "0"
      ∷ text "    Global: %s\n" "False"
      ∷ text "    NX: %s\n" "False"
      ∷ []
unfolding dump_pde
user_frame = refl
