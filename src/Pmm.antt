-- ===== src/Pmm.antt =====
-- kernel/memory/physical.c: the functions on the whole PMM.
pub mod Block
pub mod Usage
pub mod Mask
pub mod Valid
pub mod Allocate
pub mod Free
pub mod Layout
pub mod FrameAllocate
pub mod FrameFree
pub mod RoundTrip
pub mod FindRun
pub mod MarkFrames
pub mod BlockRun
pub mod FramesAllocate
use Block.{PmBlock, frame_size, no_frame, frame_map_size}
use Block.{frame_allocate_from_block, frame_free_from_block, frames_allocate_from_block}
use ech_os.Base.{ℕ, ◌+◌, ◌*◌, u64, ltb, leb, ◌==◌, if◌then◌else◌, Bool, true, false, ◌&&◌, ◌||◌}
use ech_os.Base.{Option, none, some, List, [], ◌∷◌, length, Run, ok, ◌>>=◌}

-- The blocks that `blocks[0]` to `blocks[block_count - 1]` point at.
abbrev pub Pmm : Type 0
Pmm = List PmBlock

abbrev pub end_address : PmBlock → ℕ
end_address block = u64 (block.address + u64 (block.frames_total * frame_size))

-- The test of `frame_free`.
abbrev pub contains : PmBlock → ℕ → Bool
contains block address = leb block.address address && ltb address (end_address block)

-- The loop of an allocation: `go_on` is what the later blocks give.
abbrev pub keep : PmBlock → Run (ℕ × Pmm) → Run (ℕ × Pmm)
keep block go_on = do (address, blocks) ← go_on; ok (address, block ∷ blocks)

unfoldable pub frame_allocate : Pmm → Run (ℕ × Pmm)
frame_allocate [] = ok (no_frame, [])
frame_allocate (block ∷ blocks) =
    let go_on = frame_allocate blocks in
    if block.frames_free == 0 then keep block go_on else do
      (address, block') ← frame_allocate_from_block block
      if address == no_frame then keep block' go_on else ok (address, block' ∷ blocks)

unfoldable pub frame_free : Pmm → (address : ℕ) → Run Pmm
frame_free [] address = ok []
frame_free (block ∷ blocks) address =
    let go_on = frame_free blocks address in
    if contains block address
    then (do block' ← frame_free_from_block block address; ok (block' ∷ blocks))
    else (do blocks' ← go_on; ok (block ∷ blocks'))

-- The test `block->map == NULL || block->frames_free < count`.
abbrev pub skips : PmBlock → ℕ → Bool
skips block count = elim block.bitmap [ none ↦ true | some _ ↦ ltb block.frames_free count ]

unfoldable pub frames_allocate_loop : Pmm → (count : ℕ) → Run (ℕ × Pmm)
frames_allocate_loop [] count = ok (no_frame, [])
frames_allocate_loop (block ∷ blocks) count =
    let go_on = frames_allocate_loop blocks count in
    if skips block count then keep block go_on else do
      (address, block') ← frames_allocate_from_block block count
      if address == no_frame then keep block' go_on else ok (address, block' ∷ blocks)

unfoldable pub frames_allocate : Pmm → (count : ℕ) → Run (ℕ × Pmm)
unfolding frames_allocate_loop
frames_allocate blocks count =
    if count == 0 then ok (no_frame, blocks) else frames_allocate_loop blocks count

-- `sizeof(pm_block)` on the target.
abbrev pub pm_block_size : ℕ
pm_block_size = 48

unfoldable pub pmm_size_loop : Pmm → (total : ℕ) → ℕ
pmm_size_loop [] total = total
pmm_size_loop (block ∷ blocks) total =
    pmm_size_loop blocks (u64 (total + u64 (frame_map_size block.frames_total * 8)))

unfoldable pub get_pmm_size : Pmm → ℕ
unfolding pmm_size_loop
get_pmm_size blocks = pmm_size_loop blocks (u64 (length blocks * pm_block_size))
