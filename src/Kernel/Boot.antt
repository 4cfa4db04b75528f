-- ===== src/Kernel/Boot.antt =====
-- kernel/kernel.c: `kernel_start`, without its output. `lgdt` and the load of CR3 are assembly.
pub mod Laws
pub mod Handover
use ech_os.Base.{
  ℕ, zero, suc, ◌+◌, ◌-◌, ◌*◌, ◌/◌, ◌==◌, if◌then◌else◌, List, [], ◌∷◌, Run, ok, ◌>>=◌,
}
use ech_os.Pmm.{Pmm, frame_allocate}
use ech_os.Pmm.Block.{no_frame, frame_size}
use ech_os.Paging.{Machine, Outcome, done, failed, put_entry}
use ech_os.Kernel.Colonel.{Framebuffer}
use ech_os.Kernel.Tables.{GdtDesc, gdt_entry_create, gdt_entry_add}
use ech_os.Kernel.Start.{init_paging}

-- Where `kernel_start` halts: `gdt` is the address of the descriptor, `base` that of the table.
pub data Halt : Type 0 where
  no_gdt : Halt
  no_gdt_base : (gdt : ℕ) → Halt
  no_page_tables running : (gdt base : ℕ) → GdtDesc → Halt

abbrev pub gdt_entry_count : ℕ
gdt_entry_count = 5

-- `gdt_entry_count * sizeof(gdt_entry) - 1`.
abbrev pub gdt_limit : ℕ
gdt_limit = gdt_entry_count * 8 - 1

-- The `left` words of memory from `address` on, and the writes of a table back to it.
unfoldable pub words_at : (left : ℕ) → (words : ℕ → ℕ) → (address : ℕ) → List ℕ
words_at zero words address = []
words_at (suc left) words address = words address ∷ words_at left words (address + 8)

unfoldable pub write_words : Machine → (base index : ℕ) → List ℕ → Machine
unfolding put_entry
write_words m base index [] = m
write_words m base index (entry ∷ entries) =
    write_words (put_entry m base index entry) base (index + 1) entries

-- The five segments.
unfoldable pub fill_gdt : GdtDesc → Run GdtDesc
unfolding gdt_entry_create gdt_entry_add
fill_gdt desc = do
  desc ← gdt_entry_add desc 0 (gdt_entry_create 0 0 0 0)
  desc ← gdt_entry_add desc 1 (gdt_entry_create 0 0xfffff 0x9a 0xa)
  desc ← gdt_entry_add desc 2 (gdt_entry_create 0 0xfffff 0x92 0xc)
  desc ← gdt_entry_add desc 3 (gdt_entry_create 0 0xfffff 0xfa 0xa)
  gdt_entry_add desc 4 (gdt_entry_create 0 0xfffff 0xf2 0xc)

-- What is done with the result of `init_paging`.
abbrev pub after_paging : (gdt base : ℕ) → GdtDesc → Outcome × Machine → Run (Halt × Machine)
after_paging gdt base desc (done, m) = ok (running gdt base desc, m)
after_paging gdt base desc (failed, m) = ok (no_page_tables gdt base desc, m)

-- From the second allocation on.
unfoldable pub set_up_gdt : Machine → Framebuffer → (gdt : ℕ) → Run (Halt × Machine)
unfolding frame_allocate words_at fill_gdt write_words init_paging
set_up_gdt m fb gdt = do
  (base, pmm) ← frame_allocate m.physical_memory
  if base == no_frame then ok (no_gdt_base gdt, record m { physical_memory = pmm }) else (do
    desc ← fill_gdt (record { limit = gdt_limit; entries = words_at (frame_size / 8) m.words base })
    mapped ← init_paging (write_words (record m { physical_memory = pmm }) base 0 desc.entries) fb
    after_paging gdt base desc mapped)

-- `fb` is `system->fb`, `m.physical_memory` what `system->physical_memory` points at.
unfoldable pub kernel_start : Machine → Framebuffer → Run (Halt × Machine)
unfolding frame_allocate set_up_gdt
kernel_start m fb = do
  (gdt, pmm) ← frame_allocate m.physical_memory
  if gdt == no_frame
      then ok (no_gdt, record m { physical_memory = pmm })
      else set_up_gdt (record m { physical_memory = pmm }) fb gdt
