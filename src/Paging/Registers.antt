-- ===== src/Paging/Registers.antt =====
-- kernel/memory/paging.c: the control registers, each read and written by one instruction, and `mmap`.
use ech_os.Base.{ℕ, ◌==◌, if◌then◌else◌}

-- CR0 and so on, as far as they exist.
pub record Registers : Type 0 where
  pub cr0 : ℕ
  pub cr2 : ℕ
  pub cr3 : ℕ
  pub cr4 : ℕ
  pub cr8 : ℕ

unfoldable pub get_cr : Registers → (index : ℕ) → ℕ
get_cr cpu index =
    if index == 0
    then cpu.cr0
    else (if index == 2
        then cpu.cr2
        else (if index == 3
            then cpu.cr3
            else (if index == 4
                then cpu.cr4
                else (if index == 8 then cpu.cr8 else 0xffff_ffff_ffff_ffff))))

unfoldable pub set_cr3 : Registers → (entry : ℕ) → Registers
set_cr3 cpu entry = record cpu { cr3 = entry }

-- A stub, whatever its arguments.
unfoldable pub mmap : (start length prot flags fd offset : ℕ) → ℕ
mmap start length prot flags fd offset = 0
