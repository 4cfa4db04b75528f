-- ===== src/Paging.antt =====
-- kernel/memory/paging.c: page tables in memory. Its child Registers has the control registers.
pub mod Kept
pub mod Range
pub mod Entries
pub mod Translate
pub mod Tree
pub mod Frames
pub mod Grow
pub mod Fresh
pub mod NextTable
pub mod Directory
pub mod Leaf
pub mod MapPage
pub mod Span
pub mod MapRange
pub mod Debug
pub mod Registers
use ech_os.Base.{
  ℕ, zero, suc, ◌+◌, ◌-◌, ◌*◌, ◌/◌, ◌%◌, ◌^◌, ◌==◌, ltb, leb, ◌&&◌, if◌then◌else◌, Bool, true,
}
use ech_os.Base.{false, not, bit_and, bit_or, u64, sub64, not64, Run, ok, fault, ◌>>=◌}
use ech_os.Pmm.{Pmm, frame_allocate}
use ech_os.Pmm.Block.{frame_size, no_frame}

abbrev pub page_size : ℕ
page_size = 4096

abbrev pub large_page_size : ℕ
large_page_size = 0x200000

abbrev pub phys_addr_mask : ℕ
phys_addr_mask = 0x000f_ffff_ffff_f000

abbrev pub present_bit : ℕ
present_bit = 0x1

abbrev pub read_write_bit : ℕ
read_write_bit = 0x2

abbrev pub user_supervisor_bit : ℕ
user_supervisor_bit = 0x4

abbrev pub page_size_bit : ℕ
page_size_bit = 0x80

-- The PMM, and the 64-bit word at each physical address. Tables are reached by that address. The
-- PMM's own storage is no part of `words`: the frames that it gives out hold none of it.
pub record Machine : Type 0 where
  pub physical_memory : Pmm
  pub words : ℕ → ℕ

-- What a function that returns an `int` reports: 0, or -1.
pub data Outcome : Type 0 where
  done failed : Outcome

-- `table[index]`, and a write there.
abbrev pub entry_of : Machine → (table index : ℕ) → ℕ
entry_of m table index = m.words (table + index * 8)

unfoldable pub put_entry : Machine → (table index entry : ℕ) → Machine
put_entry m table index entry = record m {
  words = λ x. if x == table + index * 8 then entry else m.words x;
}

abbrev pub has_bit : (entry bit : ℕ) → Bool
has_bit entry bit = not (bit_and entry bit == 0)

unfoldable pub init_pt_entry : (paddr flags : ℕ) → ℕ
init_pt_entry paddr flags = bit_or (bit_and paddr phys_addr_mask) flags

-- `get_pt`, `get_pd` and `get_pdp`: the table that an entry points at.
abbrev pub get_table : (entry : ℕ) → ℕ
get_table entry = bit_and entry phys_addr_mask

-- NULL is 0, here and below.
unfoldable pub alloc_table : Machine → Run (ℕ × Machine)
alloc_table m = do
  (frame, pmm) ← frame_allocate m.physical_memory
  if frame == no_frame
      then ok (0, record m { physical_memory = pmm })
      else ok (
        frame,
        record {
          physical_memory = pmm;
          words = λ x. if leb frame x && ltb x (frame + frame_size) then 0 else m.words x;
        },
      )

-- What `next_table` does with an entry that is not present.
unfoldable pub new_table : Machine → (table index flags : ℕ) → Run (ℕ × Machine)
unfolding alloc_table put_entry
new_table m table index flags = do
  (next, m') ← alloc_table m
  if next == 0
      then ok (0, m')
      else ok (
        next,
        put_entry m' table index (
            bit_or (bit_or (bit_or next present_bit) read_write_bit)
              (bit_and flags user_supervisor_bit)),
      )

unfoldable pub next_table : Machine → (table index flags : ℕ) → Run (ℕ × Machine)
unfolding new_table put_entry
next_table m table index flags =
    let entry = entry_of m table index in
    let shared = bit_or entry (bit_and flags user_supervisor_bit) in
    if not (has_bit entry present_bit)
    then new_table m table index flags
    else (if has_bit entry page_size_bit
        then ok (0, m)
        else ok (get_table shared, put_entry m table index shared))

unfoldable pub init_pml4 : Machine → Run (ℕ × Machine)
unfolding alloc_table
init_pml4 m = alloc_table m

-- `(vaddr >> shift) & 0x1FF`.
abbrev pub index_of : (shift vaddr : ℕ) → ℕ
index_of shift vaddr = bit_and (vaddr / 2 ^ shift) 0x1ff

-- What `map_page` does behind the page directory `pd`.
unfoldable pub map_in_directory : Machine → (pd vaddr paddr flags : ℕ) → Run (Outcome × Machine)
unfolding next_table put_entry init_pt_entry
map_in_directory m pd vaddr paddr flags =
    let entry = entry_of m pd (index_of 21 vaddr) in
    if has_bit entry present_bit && has_bit entry page_size_bit
    then (let mapped = u64 (
          bit_and (bit_and entry phys_addr_mask) (not64 (large_page_size - 1))
          + bit_and vaddr (large_page_size - 1)) in
        ok ((if mapped == bit_and paddr phys_addr_mask then done else failed), m))
    else (do
      (pt, m') ← next_table m pd (index_of 21 vaddr) flags
      if pt == 0
          then ok (failed, m')
          else ok (
            done,
            put_entry m' pt (index_of 12 vaddr) (init_pt_entry paddr (bit_or flags present_bit)),
          ))

-- The page directory of `vaddr`, which both kinds of page share; 0 where it cannot be made.
unfoldable pub directory_of : Machine → (pml4 vaddr flags : ℕ) → Run (ℕ × Machine)
unfolding next_table
directory_of m pml4 vaddr flags = do
  (pdp, m') ← next_table m pml4 (index_of 39 vaddr) flags
  if pdp == 0 then ok (0, m') else next_table m' pdp (index_of 30 vaddr) flags

unfoldable pub map_page : Machine → (pml4 vaddr paddr flags : ℕ) → Run (Outcome × Machine)
unfolding directory_of map_in_directory
map_page m pml4 vaddr paddr flags = do
  (pd, m') ← directory_of m pml4 vaddr flags
  if pd == 0 then ok (failed, m') else map_in_directory m' pd vaddr paddr flags

-- What `map_large_page` does behind the page directory `pd`.
unfoldable pub put_large_page : Machine → (pd vaddr paddr flags : ℕ) → Outcome × Machine
unfolding put_entry
put_large_page m pd vaddr paddr flags =
    let entry = entry_of m pd (index_of 21 vaddr) in
    if has_bit entry present_bit && not (has_bit entry page_size_bit) then (failed, m) else (
      done,
      put_entry m pd (index_of 21 vaddr)
          (bit_or (bit_or (bit_or (bit_and paddr phys_addr_mask) flags) present_bit) page_size_bit),
    )

unfoldable pub map_large_page : Machine → (pml4 vaddr paddr flags : ℕ) → Run (Outcome × Machine)
unfolding directory_of put_large_page
map_large_page m pml4 vaddr paddr flags = do
  (pd, m') ← directory_of m pml4 vaddr flags
  if pd == 0 then ok (failed, m') else ok (put_large_page m' pd vaddr paddr flags)

-- The test of `map_range` before it tries a large page, with the try; `failed` where it does not.
unfoldable pub try_large_page : Machine → (pml4 vaddr paddr end flags : ℕ) → Run (Outcome × Machine)
unfolding map_large_page
try_large_page m pml4 vaddr paddr end flags =
    if (bit_and vaddr (large_page_size - 1) == 0)
      && (bit_and paddr (large_page_size - 1) == 0)
      && leb large_page_size (sub64 end vaddr)
    then map_large_page m pml4 vaddr paddr flags
    else ok (failed, m)

-- The loop of `map_range`; `left` bounds the rounds.
unfoldable pub map_loop :
    (left : ℕ) → Machine → (pml4 vaddr paddr end flags : ℕ) → Run (Outcome × Machine)
unfolding try_large_page map_page
map_loop zero m pml4 vaddr paddr end flags = fault
map_loop (suc left) m pml4 vaddr paddr end flags = elim (ltb vaddr end) [
  | false ↦ ok (done, m)
  | true ↦ do
    (large, m') ← try_large_page m pml4 vaddr paddr end flags
    elim large [
      | done ↦
          map_loop left m' pml4 (u64 (vaddr + large_page_size)) (u64 (paddr + large_page_size)) end
            flags
      | failed ↦ do
        (small, m'') ← map_page m' pml4 vaddr paddr flags
        elim small [
          | done ↦
              map_loop left m'' pml4 (u64 (vaddr + page_size)) (u64 (paddr + page_size)) end flags
          | failed ↦ ok (failed, m'')
        ]
    ]
]

-- A round maps at least a page, and the last one sees that there is none left.
unfoldable pub map_range : Machine → (pml4 vaddr paddr length flags : ℕ) → Run (Outcome × Machine)
unfolding map_loop
map_range m pml4 vaddr paddr length flags =
    let end = u64 (vaddr + length) in
    let first = bit_and vaddr (not64 (page_size - 1)) in
    map_loop (suc ((end - first) / page_size + 1)) m pml4 first
      (bit_and paddr (not64 (page_size - 1))) end flags
