-- ===== src/Kernel/Start.antt =====
-- kernel/kernel.c: `init_paging`.
pub mod Laws
pub mod Covered
pub mod Root
pub mod Blocks
pub mod Identity
pub mod Memory
use ech_os.Base.{
  ℕ, zero, suc, ◌+◌, ◌*◌, ltb, leb, ◌==◌, if◌then◌else◌, Bool, true, false, u64, sub64,
}
use ech_os.Base.{Option, none, some, Run, ok, fault, ◌>>=◌, get_elem?, length}
use ech_os.Pmm.{end_address}
use ech_os.Kernel.Colonel.{Framebuffer}
use ech_os.Pmm.Block.{PmBlock, PmType, mmio, reserved, frame_size}
use ech_os.Paging.{Machine, Outcome, done, failed, init_pml4, map_range, read_write_bit}

-- `block->type == PM_MMIO || block->type == PM_RESERVED`.
unfoldable pub is_left_out : PmType → Bool
is_left_out mmio = true
is_left_out reserved = true
is_left_out _ = false

-- The body of the loop over the blocks; a `continue` is `done`.
unfoldable pub map_block : Machine → (pml4 : ℕ) → PmBlock → Run (Outcome × Machine)
unfolding is_left_out
map_block m pml4 block =
    let start = if ltb block.address frame_size then frame_size else block.address in
    let end = end_address block in
    if is_left_out block.type
    then ok (done, m)
    else (if leb end start
        then ok (done, m)
        else map_range m pml4 start start (sub64 end start) read_write_bit)

-- The loop, from block `i` on, with `left` blocks to go.
unfoldable pub map_blocks : (left i : ℕ) → Machine → (pml4 : ℕ) → Run (Outcome × Machine)
unfolding map_block
map_blocks zero i m pml4 = ok (done, m)
map_blocks (suc left) i m pml4 = elim (get_elem? m.physical_memory i) [
  | none ↦ fault
  | some block ↦ do
    (mapped, m') ← map_block m pml4 block
    elim mapped [ done ↦ map_blocks left (i + 1) m' pml4 | failed ↦ ok (failed, m') ]
]

abbrev pub fb_length : Framebuffer → ℕ
fb_length fb = u64 (u64 (fb.pixels_per_scanline * fb.height) * 4)

-- The mapping of the framebuffer behind the blocks.
unfoldable pub map_framebuffer :
    Machine → Framebuffer → (pml4 : ℕ) → Outcome → Run (Outcome × Machine)
map_framebuffer m fb pml4 failed = ok (failed, m)
map_framebuffer m fb pml4 done = map_range m pml4 fb.buffer fb.buffer (fb_length fb) read_write_bit

-- `done` where CR3 is loaded with the new tables at the end.
unfoldable pub init_paging : Machine → Framebuffer → Run (Outcome × Machine)
unfolding init_pml4 map_blocks map_framebuffer
init_paging m fb = do
  (pml4, m') ← init_pml4 m
  if pml4 == 0 then ok (failed, m') else do
    (mapped, m'') ← map_blocks (length m'.physical_memory) 0 m' pml4
    map_framebuffer m'' fb pml4 mapped
